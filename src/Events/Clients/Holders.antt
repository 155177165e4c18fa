-- ===== src/Events/Clients/Holders.antt =====
-- The clients that a publisher counts.
use vimbax_ros2_driver.Common.{
  ℕ, zero, suc, ◌+◌, ◌≤◌, ◌≡◌, refl, ap, String, none, some, List, [], ◌∷◌, ◌++◌, length, get_elem?,
  str_eq, if◌then◌else◌, arith,
}
use vimbax_ros2_driver.Error.{is_success}
use vimbax_ros2_driver.Events.Clients.{
  Phase, listening, closing, answered, Client, EventSystem, set,
}
use vimbax_ros2_driver.Events.Clients.Maps.{IsMap, total}

-- Whether a client counts: from the answer to its request on, until that to its last request.
abbrev pub holds : Phase → ℕ
holds (answered e) = if is_success e.code then 1 else 0
holds listening = 1
holds closing = 1
holds phase = 0

abbrev pub weight : String → Client → ℕ
weight name c = if str_eq c.event_name name then holds c.phase else 0

abbrev pub holders : String → List Client → ℕ
holders name [] = 0
holders name (c ∷ cs) = weight name c + holders name cs

-- The count of each event is the number of its clients.
abbrev pub Agrees : EventSystem → Type 0
Agrees s =
    IsMap s.subscriptions × ((name : String) → total name s.subscriptions ≡ holders name s.clients)

pub holds-le : (p : Phase) → holds p ≤ 1
holds-le p = ground arith

pub holders-le : (name : String) (cs : List Client) → holders name cs ≤ length cs
holders-le name [] = omega arith
holders-le name (c ∷ cs) = ground (arith, holds-le c.phase, holders-le name cs)

pub holders-snoc :
    (name : String) (cs : List Client) (c : Client)
    → holders name (cs ++ c ∷ []) ≡ holders name cs + weight name c
holders-snoc name [] c = omega arith
holders-snoc name (d ∷ cs) c = omega (arith, holders-snoc name cs c)

pub holders-set :
    (name : String) (i : ℕ) (c d : Client) (cs : List Client)
    → get_elem? cs i ≡ some c
    → holders name (set cs i d) + weight name c ≡ holders name cs + weight name d
holders-set name i c d [] e = absurd (ground arith)
holders-set name zero c d (b ∷ cs) e =
    let w : weight name b ≡ weight name c =
      ap (λ o. elim o [ none ↦ 0 | some x ↦ weight name x ]) e in
    omega (arith, w)
holders-set name (suc i) c d (b ∷ cs) e = omega (arith, holders-set name i c d cs e)

pub length-set : (i : ℕ) (d : Client) (cs : List Client) → length (set cs i d) ≡ length cs
length-set i d [] = refl
length-set zero d (c ∷ cs) = refl
length-set (suc i) d (c ∷ cs) = ap suc (length-set i d cs)
