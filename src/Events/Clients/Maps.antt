-- ===== src/Events/Clients/Maps.antt =====
-- The publisher's map under its own operations, and its operations by cases.
use vimbax_ros2_driver.Common.{
  ℕ, ◌<◌, ◌≡◌, refl, String, true, false, none, some, List, [], ◌∷◌, ◌++◌, ◌==◌, str_eq, eq_iff,
  if◌then◌else◌, arith, Bool-cases, inl, inr,
}
use vimbax_ros2_driver.Error.{ErrorMsg, is_success, no_error}
use vimbax_ros2_driver.Events.{
  Subscriptions, registered, unregistered, count_of, set_count, erase, subscribe, unsubscribe,
  unheard, extract, increment, decrement,
}
use vimbax_ros2_driver.Events.Balance.{is_in}

-- Each name once, and with a subscription.
abbrev pub IsMap : Subscriptions → Type 0
IsMap [] = Unit {0}
IsMap ((n, k) ∷ m) = (0 < k) × (count_of n m ≡ none) × IsMap m

unfoldable pub total : String → Subscriptions → ℕ
total name m = elim (count_of name m) [ none ↦ 0 | some k ↦ k ]

pub count_of-set_count :
    (x name : String) (k c : ℕ) (m : Subscriptions)
    → count_of name m ≡ some c
    → count_of x (set_count name k m) ≡ (if str_eq name x then some k else count_of x m)
unfolding count_of set_count
count_of-set_count x name k c [] e = ground arith
count_of-set_count x name k c ((n, d) ∷ m) e =
    ground (arith, eq_iff n name, eq_iff name x, eq_iff n x, count_of-set_count x name k c m)

pub count_of-snoc :
    (x name : String) (k : ℕ) (m : Subscriptions)
    → count_of name m ≡ none
    → count_of x (m ++ (name, k) ∷ []) ≡ (if str_eq name x then some k else count_of x m)
unfolding count_of
count_of-snoc x name k [] e = refl
count_of-snoc x name k ((n, d) ∷ m) e =
    ground (arith, eq_iff n name, eq_iff name x, eq_iff n x, count_of-snoc x name k m)

pub count_of-erase :
    (x name : String) (m : Subscriptions)
    → IsMap m
    → count_of x (erase name m) ≡ (if str_eq name x then none else count_of x m)
unfolding count_of erase
count_of-erase x name [] h = ground arith
count_of-erase x name ((n, d) ∷ m) h =
    ground (arith, eq_iff n name, eq_iff name x, eq_iff n x, count_of-erase x name m h.2)

pub count_of-set_count_other :
    (x name : String) (k : ℕ) (m : Subscriptions)
    → str_eq x name ≡ false
    → count_of x m ≡ none
    → count_of x (set_count name k m) ≡ none
unfolding count_of set_count
count_of-set_count_other x name k [] d e = refl
count_of-set_count_other x name k ((n, c) ∷ m) d e =
    ground (arith, eq_iff n name, eq_iff x name, eq_iff n x, count_of-set_count_other x name k m)

pub IsMap-set_count :
    (name : String) (k : ℕ) (m : Subscriptions) → 0 < k → IsMap m → IsMap (set_count name k m)
unfolding count_of set_count
IsMap-set_count name k [] p h = tt
IsMap-set_count name k ((n, d) ∷ m) p h = elim (Bool-cases (str_eq n name)) [
  | inl e ↦ rw e (p, h.1, h.2)
  | inr e ↦ rw e (h.0, count_of-set_count_other n name k m e h.1, IsMap-set_count name k m p h.2)
]

pub IsMap-snoc :
    (name : String) (k : ℕ) (m : Subscriptions)
    → 0 < k
    → count_of name m ≡ none
    → IsMap m
    → IsMap (m ++ (name, k) ∷ [])
unfolding count_of
IsMap-snoc name k [] p e h = (p, refl, tt)
IsMap-snoc name k ((n, d) ∷ m) p e h = (
  h.0,
  ground (arith, count_of-snoc n name k m, eq_iff n name, eq_iff name n),
  IsMap-snoc name k m p (ground (arith, e)) h.2,
)

pub IsMap-erase : (name : String) (m : Subscriptions) → IsMap m → IsMap (erase name m)
unfolding count_of erase
IsMap-erase name [] h = tt
IsMap-erase name ((n, d) ∷ m) h = elim (Bool-cases (str_eq n name)) [
  | inl e ↦ rw e h.2
  | inr e ↦ rw e (h.0, ground (arith, count_of-erase n name m h.2), IsMap-erase name m h.2)
]

module _ (answer : String → ErrorMsg) (name : String) (m : Subscriptions) where
  pub subscribe_new :
      count_of name m ≡ none
      → is_success (answer name).code ≡ true
      → subscribe answer name m ≡ record {
        error = no_error;
        calls = registered name ∷ [];
        subscriptions = m ++ (name, 1) ∷ [];
      }
  unfolding subscribe
  subscribe_new e good = simp (subscribe, e, good)

  pub subscribe_refused :
      count_of name m ≡ none
      → is_success (answer name).code ≡ false
      → subscribe answer name m ≡ record { error = answer name; calls = []; subscriptions = m }
  unfolding subscribe
  subscribe_refused e bad = simp (subscribe, e, bad)

  pub subscribe_again :
      (k : ℕ)
      → count_of name m ≡ some k
      → subscribe answer name m
        ≡ record { error = no_error; calls = []; subscriptions = set_count name (increment k) m }
  unfolding subscribe
  subscribe_again k e = simp (subscribe, e)

pub total_of_count :
    (name : String) (k : ℕ) (m : Subscriptions) → count_of name m ≡ some k → total name m ≡ k
unfolding total
total_of_count name k m e = rw (e, total) refl

module _ (name : String) (m : Subscriptions) where
  pub unsubscribe_unknown :
      count_of name m ≡ none
      → unsubscribe name m ≡ record { error = no_error; calls = []; subscriptions = m }
  unfolding unsubscribe
  unsubscribe_unknown e = simp (unsubscribe, e)

  pub unsubscribe_last :
      (k : ℕ)
      → count_of name m ≡ some k
      → (decrement k == 0) ≡ true
      → unsubscribe name m ≡ record {
        error = no_error;
        calls = unregistered name ∷ [];
        subscriptions = erase name (set_count name (decrement k) m);
      }
  unfolding unsubscribe
  unsubscribe_last k e last = simp (unsubscribe, e, last)

  pub unsubscribe_more :
      (k : ℕ)
      → count_of name m ≡ some k
      → (decrement k == 0) ≡ false
      → unsubscribe name m
        ≡ record { error = no_error; calls = []; subscriptions = set_count name (decrement k) m }
  unfolding unsubscribe
  unsubscribe_more k e more = simp (unsubscribe, e, more)

pub count_of-pos :
    (name : String) (k : ℕ) (m : Subscriptions) → IsMap m → count_of name m ≡ some k → 0 < k
unfolding count_of
count_of-pos name k [] h e = absurd (ground arith)
count_of-pos name k ((n, d) ∷ m) h e = ground (arith, count_of-pos name k m)

pub erase-set_count :
    (name : String) (k : ℕ) (m : Subscriptions) → erase name (set_count name k m) ≡ erase name m
unfolding erase set_count
erase-set_count name k [] = refl
erase-set_count name k ((n, d) ∷ m) = ground (arith, erase-set_count name k m)

pub IsMap-extract : (names : List String) (m : Subscriptions) → IsMap m → IsMap (extract names m)
unfolding extract
IsMap-extract [] m h = h
IsMap-extract (n ∷ names) m h = IsMap-extract names (erase n m) (IsMap-erase n m h)

pub count_of-extract :
    (x : String) (names : List String) (m : Subscriptions)
    → IsMap m
    → count_of x (extract names m) ≡ (if is_in x names then none else count_of x m)
unfolding extract
count_of-extract x [] m h = refl
count_of-extract x (n ∷ names) m h =
    ground (arith, count_of-extract x names (erase n m) (IsMap-erase n m h), count_of-erase x n m h)

pub is_in-unheard :
    (x : String) (f : String → ℕ) (m : Subscriptions)
    → (f x == 0) ≡ false
    → is_in x (unheard f m) ≡ false
unfolding unheard
is_in-unheard x f [] h = refl
is_in-unheard x f ((n, k) ∷ m) h = ground (arith, eq_iff n x, is_in-unheard x f m)

pub unheard-none :
    (x : String) (f : String → ℕ) (m : Subscriptions)
    → (f x == 0) ≡ true
    → (if is_in x (unheard f m) then none else count_of x m) ≡ none
unfolding unheard count_of
unheard-none x f [] h = refl
unheard-none x f ((n, k) ∷ m) h = ground (arith, eq_iff n x, unheard-none x f m)

pub if_unheard :
    (x : String) (f : String → ℕ) (m : Subscriptions)
    → (if is_in x (unheard f m) then none else count_of x m)
      ≡ (if f x == 0 then none else count_of x m)
if_unheard x f m = elim (Bool-cases (f x == 0)) [
  | inl zero ↦ rw zero (unheard-none x f m zero)
  | inr heard ↦ rw (heard, is_in-unheard x f m heard) refl
]
