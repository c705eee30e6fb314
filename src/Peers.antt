-- ===== src/Peers.antt =====
-- Peer lists and peer infos: ring.go. A UUID is only compared, so a number stands for it; of
-- `models.PeerInfo` the fields that the rings read are kept.
pub mod Sets
pub mod Infos
use torus.Base.{
  ℕ, zero, suc, ◌+◌, ◌-◌, ◌/◌, ◌%◌, Bool, true, false, not, Option, none, some, List, [], ◌∷◌, ◌++◌,
  map, ◌==◌, if◌then◌else◌, Outcome, ok, err, panic, ◌>>=◌,
}

abbrev pub Uuid : Type 0
Uuid = ℕ

abbrev pub PeerList : Type 0
PeerList = List Uuid

pub record PeerInfo : Type 0 where
  pub uuid : Uuid
  pub total_blocks : ℕ

abbrev pub PeerInfoList : Type 0
PeerInfoList = List PeerInfo

pub record PeerPermutation : Type 0 where
  pub replication : ℕ
  pub peers : PeerList

-- The loop of `IndexAt`, at index `i`; `none` is -1.
unfoldable pub index_from : ℕ → PeerList → Uuid → Option ℕ
index_from i [] u = none
index_from i (x ∷ xs) u = let rest = index_from (i + 1) xs u in if x == u then some i else rest

unfoldable pub index_at : PeerList → Uuid → Option ℕ
index_at pl u = index_from 0 pl u

-- `PeerList.Has`
unfoldable pub has : PeerList → Uuid → Bool
has pl u = elim (index_at pl u) [ none ↦ false | some i ↦ true ]

-- The elements that pass a test, in order: the loop that `AndNot`, `Union` and `Intersect` share.
abbrev pub keep {ℓ} : {A : Type ℓ} → (A → Bool) → List A → List A
keep p [] = []
keep p (x ∷ xs) = let rest = keep p xs in if p x then x ∷ rest else rest

unfoldable pub and_not : PeerList → PeerList → PeerList
and_not pl b = keep (λ x. not (has b x)) pl

unfoldable pub union : PeerList → PeerList → PeerList
union pl b = pl ++ keep (λ x. not (has pl x)) b

unfoldable pub intersect : PeerList → PeerList → PeerList
intersect pl b = keep (λ x. has b x) pl

-- `PeerInfoList.PeerList`
unfoldable pub peer_list : PeerInfoList → PeerList
peer_list pi = map (λ x. x.uuid) pi

-- The loop of `UUIDAt` goes over the infos as `IndexAt` over their identifiers.
unfoldable pub uuid_from : ℕ → PeerInfoList → Uuid → Option ℕ
uuid_from i [] u = none
uuid_from i (x ∷ xs) u = let rest = uuid_from (i + 1) xs u in if x.uuid == u then some i else rest

unfoldable pub uuid_at : PeerInfoList → Uuid → Option ℕ
uuid_at pi u = uuid_from 0 pi u

unfoldable pub has_uuid : PeerInfoList → Uuid → Bool
has_uuid pi u = elim (uuid_at pi u) [ none ↦ false | some i ↦ true ]

unfoldable pub info_and_not : PeerInfoList → PeerList → PeerInfoList
info_and_not pi b = keep (λ x. not (has b x.uuid)) pi

unfoldable pub info_union : PeerInfoList → PeerInfoList → PeerInfoList
info_union pi b = pi ++ keep (λ x. not (has_uuid pi x.uuid)) b

unfoldable pub info_intersect : PeerInfoList → PeerInfoList → PeerInfoList
info_intersect pi b = keep (λ x. has_uuid b x.uuid) pi

-- `big.Int.GCD` by Euclid's rounds; `suc b` rounds are enough.
unfoldable pub gcd_rounds : ℕ → ℕ → ℕ → ℕ
gcd_rounds zero a b = a
gcd_rounds (suc f) a b = let rest = gcd_rounds f b (a % b) in if b == 0 then a else rest

abbrev pub gcd : ℕ → ℕ → ℕ
gcd a b = gcd_rounds (suc b) a b

-- The first loop of `GetWeights`, over `pi[1:]`.
unfoldable pub gcd_loop : ℕ → PeerInfoList → ℕ
gcd_loop g [] = g
gcd_loop g (p ∷ ps) = gcd_loop (gcd g p.total_blocks) ps

-- A map of weights, one entry for each identifier.
abbrev pub Weights : Type 0
Weights = List (Uuid × ℕ)

abbrev pub put_weight : Uuid → ℕ → Weights → Weights
put_weight u w [] = (u, w) ∷ []
put_weight u w ((k, v) ∷ m) = if k == u then (k, w) ∷ m else (k, v) ∷ put_weight u w m

abbrev pub weight_of : Uuid → Weights → Option ℕ
weight_of u [] = none
weight_of u ((k, v) ∷ m) = if k == u then some v else weight_of u m

-- The second loop of `GetWeights`. A divisor of zero panics.
unfoldable pub weights_loop : ℕ → PeerInfoList → Weights → Outcome Weights
weights_loop g [] out = ok out
weights_loop g (p ∷ ps) out =
    let rest = weights_loop g ps (put_weight p.uuid (p.total_blocks / g) out) in
    if g == 0 then panic else rest

unfoldable pub get_weights : PeerInfoList → Outcome Weights
unfolding weights_loop gcd_loop
get_weights [] = ok []
get_weights (p ∷ ps) = weights_loop (gcd_loop p.total_blocks ps) (p ∷ ps) []
