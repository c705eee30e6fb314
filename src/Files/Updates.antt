-- ===== src/Files/Updates.antt =====
-- The bytes of the file after a write through the cache.
use torus.Base.{
  ℕ, ◌+◌, ◌*◌, ◌/◌, ◌%◌, ◌≤◌, ◌<◌, ◌≡◌, sym, ap, ap₂, ◌∙◌, arith, inl, inr, ◌⊎◌, length, get_or,
  ◌==◌, Bool-cases, Bytes,
}
use native.Mathlib.Nat.{mod-add-div'}
use torus.Files.Ops.{BlocksetOps}
use torus.Files.Cache.{SingleBlockCache}
use torus.Files.View.{view}
use torus.Files.Opening.{HeldBefore}
use torus.Files.Writing.{IsWritten}
use torus.Files.File.{File}
use torus.Files.Bytes.{
  byte_of, div_in_block, get_or-splice_in, get_or-splice_out, get_or-zeros, unread_byte,
}
use torus.Files.Reading.{byte_at}

module _ {B : Type 0} (o : BlocksetOps B) where
  held_byte :
      (c : SingleBlockCache B) (i k : ℕ) (d : Bytes)
      → HeldBefore o c i d
      → get_or d k 0 ≡ byte_of (view o c i) k
  held_byte c i k d (inl read) = ap (λ x. byte_of x k) (sym read)
  held_byte c i k d (inr (zeros, unread)) =
      ap (λ x. get_or x k 0) zeros
      ∙ get_or-zeros c.blk_size k
      ∙ sym (unread_byte (view o c i) k unread)

  -- The bytes of the file after a write of `b` at `off`: those of `b` there, and all others as before.
  pub record HasBytes (f : File B) (b : Bytes) (off : ℕ) (f' : File B) : Type 0 where
    pub new : (k : ℕ) → k < length b → byte_at o f' (off + k) ≡ get_or b k 0
    pub kept : (p : ℕ) → (p < off) ⊎ (off + length b ≤ p) → byte_at o f' p ≡ byte_at o f p

  pub written-HasBytes :
      (f : File B) (b : Bytes) (off : ℕ) (c' : SingleBlockCache B)
      → 0 < f.blk_size
      → f.cache.blk_size ≡ f.blk_size
      → off % f.blk_size + length b ≤ f.blk_size
      → IsWritten o f.cache (off / f.blk_size) (off % f.blk_size) b c'
      → HasBytes f b off (record f { cache = c' })
  written-HasBytes f b off c' pos size fits w =
      let (old, held, l, now) = w.written in
      let size_of : ℕ = f.blk_size in
      let from : ℕ = off % f.blk_size in
      record {
        new = λ k h.
            let here = div_in_block f.blk_size off k pos (omega (arith, h, fits)) in
            ap₂ (λ q r. byte_of (view o c' q) r) here.0 here.1
            ∙ ap (λ x. byte_of x (from + k)) now
            ∙ get_or-splice_in from b old k (omega (arith, l, size, fits)) h;
        kept = λ p apart. elim (Bool-cases (p / f.blk_size == off / f.blk_size)) [
          | inr other ↦
              ap (λ x. byte_of x (p % f.blk_size)) (w.others (p / f.blk_size) (λ e. ground arith))
          | inl same ↦
              let q : p / f.blk_size ≡ off / f.blk_size = ground arith in
              let k : ℕ = p % f.blk_size in
              ap (λ x. byte_of (view o c' x) k) q
              ∙ ap (λ x. byte_of x k) now
              ∙ get_or-splice_out from b old k (outside p q apart)
              ∙ held_byte f.cache (off / f.blk_size) k old held
              ∙ ap (λ x. byte_of (view o f.cache x) k) (sym q)
        ];
      }
    where
      outside :
          (p : ℕ)
          → p / f.blk_size ≡ off / f.blk_size
          → (p < off) ⊎ (off + length b ≤ p)
          → (p % f.blk_size < off % f.blk_size) ⊎ (off % f.blk_size + length b ≤ p % f.blk_size)
      outside p q (inl below) =
          let whole_p : p % f.blk_size + off / f.blk_size * f.blk_size ≡ p =
            ap (λ x. p % f.blk_size + x * f.blk_size) (sym q) ∙ mod-add-div' p f.blk_size in
          inl (omega (arith, whole_p, mod-add-div' off f.blk_size, below))
      outside p q (inr above) =
          let whole_p : p % f.blk_size + off / f.blk_size * f.blk_size ≡ p =
            ap (λ x. p % f.blk_size + x * f.blk_size) (sym q) ∙ mod-add-div' p f.blk_size in
          inr (omega (arith, whole_p, mod-add-div' off f.blk_size, above))
