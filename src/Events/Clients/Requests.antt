-- ===== src/Events/Clients/Requests.antt =====
-- Requests that are under way, and names that the publisher's map does not have.
use vimbax_ros2_driver.Common.{
  ℕ, zero, suc, ◌+◌, ◌≡◌, refl, sym, ap, ◌∙◌, String, Bool, true, false, none, some, List, [], ◌∷◌,
  ◌++◌, get_elem?, ◌==◌, ==_iff, str_eq, eq_iff, if◌then◌else◌, arith, Option-cases, Bool-cases,
  inl, inr,
}
use vimbax_ros2_driver.Error.{ErrorMsg, is_success}
use vimbax_ros2_driver.Events.{
  Subscriptions, count_of, set_count, erase, extract, subscribe, unsubscribe, increment, decrement,
}
use vimbax_ros2_driver.Events.Clients.{
  Phase, requested, listening, Client, EventStep, request, drop, set,
}
use vimbax_ros2_driver.Events.Clients.Maps.{
  subscribe_again, subscribe_new, subscribe_refused, unsubscribe_last, unsubscribe_more,
  unsubscribe_unknown,
}

-- The requests for an event that are not served yet.
abbrev pub asks : String → Client → ℕ
asks name c = if str_eq c.event_name name then elim c.phase [ requested ↦ 1 | _ ↦ 0 ] else 0

abbrev pub asking : String → List Client → ℕ
asking name [] = 0
asking name (c ∷ cs) = asks name c + asking name cs

-- Nobody requests the event, and the client at `i` is not dropped.
abbrev pub Apart : String → ℕ → EventStep → Type 0
Apart name i (request n) = str_eq n name ≡ false
Apart name i (drop j) = (j == i) ≡ false
Apart name i e = Unit {0}

abbrev pub AllApart : String → ℕ → List EventStep → Type 0
AllApart name i [] = Unit {0}
AllApart name i (e ∷ es) = Apart name i e × AllApart name i es

-- The map's operations bring no name back.
module _ (x : String) where
  pub none-set_count :
      (name : String) (k : ℕ) (m : Subscriptions)
      → count_of x m ≡ none
      → count_of x (set_count name k m) ≡ none
  unfolding count_of set_count
  none-set_count name k [] e = refl
  none-set_count name k ((n, c) ∷ m) e =
      ground (arith, eq_iff n name, eq_iff name x, eq_iff n x, none-set_count name k m)

  pub none-erase :
      (name : String) (m : Subscriptions) → count_of x m ≡ none → count_of x (erase name m) ≡ none
  unfolding count_of erase
  none-erase name [] e = refl
  none-erase name ((n, c) ∷ m) e = ground (arith, none-erase name m)

  pub none-extract :
      (names : List String) (m : Subscriptions)
      → count_of x m ≡ none
      → count_of x (extract names m) ≡ none
  unfolding extract
  none-extract [] m e = e
  none-extract (n ∷ names) m e = none-extract names (erase n m) (none-erase n m e)

  pub none-snoc :
      (name : String) (k : ℕ) (m : Subscriptions)
      → str_eq name x ≡ false
      → count_of x m ≡ none
      → count_of x (m ++ (name, k) ∷ []) ≡ none
  unfolding count_of
  none-snoc name k [] d e = rw d refl
  none-snoc name k ((n, c) ∷ m) d e = ground (arith, none-snoc name k m)

  pub none-subscribe :
      (answer : String → ErrorMsg) (name : String) (m : Subscriptions)
      → str_eq name x ≡ false
      → count_of x m ≡ none
      → count_of x (subscribe answer name m).subscriptions ≡ none
  none-subscribe answer name m d e = elim (Option-cases (count_of name m)) [
    | inl u ↦ elim (Bool-cases (is_success (answer name).code)) [
      | inl good ↦ rw (subscribe_new answer name m u good) (none-snoc name 1 m d e)
      | inr bad ↦ rw (subscribe_refused answer name m u bad) e
    ]
    | inr (k, u) ↦ rw (subscribe_again answer name m k u) (none-set_count name (increment k) m e)
  ]

  pub none-unsubscribe :
      (name : String) (m : Subscriptions)
      → count_of x m ≡ none
      → count_of x (unsubscribe name m).subscriptions ≡ none
  none-unsubscribe name m e = elim (Option-cases (count_of name m)) [
    | inl u ↦ rw (unsubscribe_unknown name m u) e
    | inr (k, u) ↦ elim (Bool-cases (decrement k == 0)) [
      | inl last ↦
          rw (unsubscribe_last name m k u last) (
            none-erase name (set_count name (decrement k) m)
              (none-set_count name (decrement k) m e))
      | inr more ↦ rw (unsubscribe_more name m k u more) (none-set_count name (decrement k) m e)
    ]
  ]

pub get-set_other :
    (i j : ℕ) (d : Client) (cs : List Client)
    → (j == i) ≡ false
    → get_elem? (set cs j d) i ≡ get_elem? cs i
get-set_other i j d [] n = refl
get-set_other zero zero d (c ∷ cs) n = absurd (ground arith)
get-set_other zero (suc j) d (c ∷ cs) n = refl
get-set_other (suc i) zero d (c ∷ cs) n = refl
get-set_other (suc i) (suc j) d (c ∷ cs) n = get-set_other i j d cs (ground arith)

pub asking-at :
    (name n : String) (j : ℕ) (cs : List Client)
    → get_elem? cs j ≡ some (record { event_name = n; phase = requested })
    → asking name cs ≡ 0
    → str_eq n name ≡ false
asking-at name n j [] e a = absurd (ground arith)
asking-at name n zero (c ∷ cs) e a =
    let w : asks name c ≡ (if str_eq n name then 1 else 0) =
      ap (λ o. elim o [ none ↦ 0 | some d ↦ asks name d ]) e in
    ground arith
asking-at name n (suc j) (c ∷ cs) e a = asking-at name n j cs e (omega arith)

pub asking-set :
    (name n : String) (j : ℕ) (p q : Phase) (cs : List Client)
    → get_elem? cs j ≡ some (record { event_name = n; phase = p })
    → asks name (record { event_name = n; phase = q }) ≡ 0
    → asking name cs ≡ 0
    → asking name (set cs j (record { event_name = n; phase = q })) ≡ 0
asking-set name n j p q [] e z a = refl
asking-set name n zero p q (c ∷ cs) e z a = omega arith
asking-set name n (suc j) p q (c ∷ cs) e z a = omega (arith, asking-set name n j p q cs e z)

pub asking-snoc :
    (name : String) (c : Client) (cs : List Client)
    → asking name (cs ++ c ∷ []) ≡ asking name cs + asks name c
asking-snoc name c [] = omega arith
asking-snoc name c (d ∷ cs) = omega (arith, asking-snoc name c cs)

pub get-snoc :
    (i : ℕ) (c d : Client) (cs : List Client)
    → get_elem? cs i ≡ some c
    → get_elem? (cs ++ d ∷ []) i ≡ some c
get-snoc i c d [] e = absurd (ground arith)
get-snoc zero c d (b ∷ cs) e = e
get-snoc (suc i) c d (b ∷ cs) e = get-snoc i c d cs e

abbrev pub is_listening : Phase → Bool
is_listening listening = true
is_listening p = false

pub apart :
    (i j : ℕ) (c d : Client) (cs : List Client)
    → get_elem? cs i ≡ some c
    → get_elem? cs j ≡ some d
    → is_listening c.phase ≡ true
    → is_listening d.phase ≡ false
    → (j == i) ≡ false
apart i j c d cs e f l n = elim (Bool-cases (j == i)) [
  | inl same ↦
      let q : get_elem? cs j ≡ some c = rw ((==_iff j i).0 same) e in
      let w : is_listening d.phase ≡ is_listening c.phase =
        ap (λ o. elim o [ none ↦ false | some x ↦ is_listening x.phase ]) (sym f ∙ q) in
      absurd (ground arith)
  | inr other ↦ other
]
