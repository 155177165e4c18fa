-- ===== src/Events/Balance.antt =====
-- The calls to the owner against the map of subscriptions.
use vimbax_ros2_driver.Common.{
  ℕ, ◌≡◌, refl, sym, ap, ◌∙◌, String, Bool, true, false, Option, none, some, List, [], ◌∷◌, ◌++◌,
  ◌==◌, str_eq, eq_iff, if◌then◌else◌, arith, Bool-cases, Option-cases, inl, inr,
}
use mathlib.Core.List.{append_assoc}
use vimbax_ros2_driver.Error.{ErrorMsg, is_success}
use vimbax_ros2_driver.Events.{
  Subscriptions, OwnerCall, registered, unregistered, Outcome, count_of, set_count, erase,
  subscribe, unsubscribe, unheard, unregister_all, extract, on_timer, decrement,
}

-- A strict owner: it keeps the registered names, and refuses to register a name twice or to unregister
-- one that is not registered.
abbrev pub is_in : String → List String → Bool
is_in name [] = false
is_in name (n ∷ names) = if str_eq n name then true else is_in name names

abbrev pub without : String → List String → List String
without name [] = []
without name (n ∷ names) = if str_eq n name then names else n ∷ without name names

abbrev pub accept : OwnerCall → List String → Option (List String)
accept (registered name) names = if is_in name names then none else some (names ++ name ∷ [])
accept (unregistered name) names = if is_in name names then some (without name names) else none

unfoldable pub accept_all : List OwnerCall → List String → Option (List String)
accept_all [] names = some names
accept_all (c ∷ cs) names = elim (accept c names) [
  | none ↦ none
  | some names' ↦ accept_all cs names'
]

-- The subscribed names.
abbrev pub names_of : Subscriptions → List String
names_of [] = []
names_of ((n, k) ∷ m) = n ∷ names_of m

names_of-append :
    (m : Subscriptions) (name : String) (k : ℕ)
    → names_of (m ++ (name, k) ∷ []) ≡ names_of m ++ name ∷ []
names_of-append [] name k = refl
names_of-append ((n, c) ∷ m) name k = ap (◌∷◌ n) (names_of-append m name k)

names_of-set_count :
    (name : String) (k : ℕ) (m : Subscriptions) → names_of (set_count name k m) ≡ names_of m
unfolding set_count
names_of-set_count name k [] = refl
names_of-set_count name k ((n, c) ∷ m) = ground (arith, names_of-set_count name k m)

names_of-erase :
    (name : String) (m : Subscriptions) → names_of (erase name m) ≡ without name (names_of m)
unfolding erase
names_of-erase name [] = refl
names_of-erase name ((n, c) ∷ m) = ground (arith, names_of-erase name m)

count_of-none :
    (name : String) (m : Subscriptions) → count_of name m ≡ none → is_in name (names_of m) ≡ false
unfolding count_of
count_of-none name [] e = refl
count_of-none name ((n, c) ∷ m) e = ground (arith, count_of-none name m)

count_of-some :
    (name : String) (k : ℕ) (m : Subscriptions)
    → count_of name m ≡ some k
    → is_in name (names_of m) ≡ true
unfolding count_of
count_of-some name k [] e = ground arith
count_of-some name k ((n, c) ∷ m) e = ground (arith, count_of-some name k m)

accept_all-registered :
    (name : String) (cs : List OwnerCall) (names : List String)
    → is_in name names ≡ false
    → accept_all (registered name ∷ cs) names ≡ accept_all cs (names ++ name ∷ [])
unfolding accept_all
accept_all-registered name cs names e = ground arith

accept_all-unregistered :
    (name : String) (cs : List OwnerCall) (names : List String)
    → is_in name names ≡ true
    → accept_all (unregistered name ∷ cs) names ≡ accept_all cs (without name names)
unfolding accept_all
accept_all-unregistered name cs names e = ground arith

-- A handler whose calls the owner accepts, and which leaves what the owner has registered.
abbrev pub IsBalanced : Subscriptions → Outcome → Type 0
IsBalanced m o = accept_all o.calls (names_of m) ≡ some (names_of o.subscriptions)

pub subscribe-IsBalanced :
    (answer : String → ErrorMsg) (name : String) (m : Subscriptions)
    → IsBalanced m (subscribe answer name m)
unfolding accept_all subscribe
subscribe-IsBalanced answer name m = elim (Option-cases (count_of name m)) [
  | inl e ↦ elim (Bool-cases (is_success (answer name).code)) [
    | inl ok ↦ simp (
      subscribe,
      e,
      ok,
      accept_all-registered name [] (names_of m) (count_of-none name m e),
      names_of-append,
    )
    | inr bad ↦ simp (subscribe, e, bad)
  ]
  | inr (k, e) ↦ simp (subscribe, e, names_of-set_count)
]

pub unsubscribe-IsBalanced : (name : String) (m : Subscriptions) → IsBalanced m (unsubscribe name m)
unfolding accept_all unsubscribe
unsubscribe-IsBalanced name m = elim (Option-cases (count_of name m)) [
  | inl e ↦ simp (unsubscribe, e)
  | inr (k, e) ↦ elim (Bool-cases (decrement k == 0)) [
    | inl last ↦ simp (
      unsubscribe,
      e,
      last,
      accept_all-unregistered name [] (names_of m) (count_of-some name k m e),
      names_of-erase,
      names_of-set_count,
    )
    | inr more ↦ simp (unsubscribe, e, more, names_of-set_count)
  ]
]

module _ (subscription_count : String → ℕ) where
  -- The events that somebody listens to.
  abbrev Heard : Subscriptions → Type 0
  Heard [] = Unit {0}
  Heard ((n, k) ∷ m) = ((subscription_count n == 0) ≡ false) × Heard m

  Heard-snoc :
      (kept : Subscriptions) (n : String) (k : ℕ)
      → Heard kept
      → (subscription_count n == 0) ≡ false
      → Heard (kept ++ (n, k) ∷ [])
  Heard-snoc [] n k h e = (e, tt)
  Heard-snoc ((a, c) ∷ kept) n k h e = (h.0, Heard-snoc kept n k h.1 e)

  is_in-kept :
      (kept : Subscriptions) (n : String) (k : ℕ) (m : Subscriptions)
      → is_in n (names_of (kept ++ (n, k) ∷ m)) ≡ true
  is_in-kept [] n k m = ground (arith, eq_iff n n)
  is_in-kept ((a, c) ∷ kept) n k m = ground (arith, is_in-kept kept n k m)

  differs :
      (a n : String)
      → (subscription_count a == 0) ≡ false
      → (subscription_count n == 0) ≡ true
      → str_eq a n ≡ false
  differs a n h e = elim (Bool-cases (str_eq a n)) [
    | inl same ↦
        let h' : (subscription_count n == 0) ≡ false = rw (← (eq_iff a n).0 same) h in ground arith
    | inr other ↦ other
  ]

  erase-Heard :
      (kept : Subscriptions) (n : String) (k : ℕ) (m : Subscriptions)
      → Heard kept
      → (subscription_count n == 0) ≡ true
      → erase n (kept ++ (n, k) ∷ m) ≡ kept ++ m
  unfolding erase
  erase-Heard [] n k m h e = ground (arith, eq_iff n n)
  erase-Heard ((a, c) ∷ kept) n k m h e =
      rw (differs a n h.0 e) (ap (◌∷◌ (a, c)) (erase-Heard kept n k m h.1 e))

  extract-IsBalanced :
      (kept m : Subscriptions)
      → Heard kept
      → accept_all (unregister_all (unheard subscription_count m)) (names_of (kept ++ m))
        ≡ some (names_of (extract (unheard subscription_count m) (kept ++ m)))
  unfolding unheard extract
  extract-IsBalanced kept [] h = unfold accept_all in refl
  extract-IsBalanced kept ((n, k) ∷ m) h = elim (Bool-cases (subscription_count n == 0)) [
    | inl e ↦
        simp
          (
            e,
            accept_all-unregistered n (unregister_all (unheard subscription_count m))
                (names_of (kept ++ (n, k) ∷ m)) (is_in-kept kept n k m),
            ← names_of-erase n (kept ++ (n, k) ∷ m),
            erase-Heard kept n k m h e,
          )
          (extract-IsBalanced kept m h
            ∙ ap (λ (x : Subscriptions). some (names_of (extract (unheard subscription_count m) x)))
                (sym (erase-Heard kept n k m h e)))
    | inr e ↦
        simp (e, ← append_assoc kept ((n, k) ∷ []) m)
          (extract-IsBalanced (kept ++ (n, k) ∷ []) m (Heard-snoc kept n k h e))
  ]

  pub on_timer-IsBalanced : (m : Subscriptions) → IsBalanced m (on_timer subscription_count m)
  unfolding on_timer
  on_timer-IsBalanced m = extract-IsBalanced [] m tt
