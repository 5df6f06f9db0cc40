-- ===== src/Contract/Search.antt =====
-- `binary_search_by` of the standard library, on a list of names, and what it finds in a sorted one.
use zincha_sdk.Base.{
  ℕ, zero, suc, ◌-◌, ◌/◌, ◌≤◌, ◌≡◌, refl, sym, ap, ◌∙◌, inl, inr, Bool, true, false, ◌||◌, List, [],
  ◌∷◌, arith, if◌then◌else◌, Bool-cases, length, take, drop, length-take, length-drop, ◌==◌, nat_eq,
  ==_iff, ==_comm, contains, list_eq, option_eq,
}
use mathlib.Core.Bool.{false≢true}
use zincha_sdk.Base.Sort.{Below, IsSorted}
use zincha_sdk.Crypto.Bytes.{Text, bytes_le}
use zincha_sdk.Crypto.Bytes.Order.{bytes_le-total, bytes_le-antisym}

-- one round: the part from the middle on if the name there is not greater, or else as many names from
-- the front
abbrev pub by_middle : Text → List Text → List Text → List Text
by_middle name [] front = front
by_middle name (middle ∷ back) front = if bytes_le middle name then middle ∷ back else front

-- the loop: it halves the part of the list that can hold the name until one entry is left
unfoldable pub search : ℕ → Text → List Text → Bool
search zero name xs = false
search (suc fuel) name [] = false
search (suc fuel) name (x ∷ []) = x == name
search (suc fuel) name (x ∷ y ∷ rest) =
    let xs = x ∷ y ∷ rest in
    let half = length xs / 2 in
    search fuel name (by_middle name (drop half xs) (take (length xs - half) xs))

-- `binary_search_by(|candidate| candidate.cmp(name)).is_ok()`, with a round for each entry
unfoldable pub binary_search : List Text → Text → Bool
unfolding search
binary_search xs name = search (length xs) name xs

bytes_le_refl : (a : Text) → bytes_le a a ≡ true
bytes_le_refl a = elim (Bool-cases (bytes_le a a)) [ inl h ↦ h | inr h ↦ bytes_le-total a a h ]

-- what is below all entries is below those from a place on
Below-drop :
    (x : Text) (k : ℕ) (xs : List Text) → Below bytes_le x xs → Below bytes_le x (drop k xs)
Below-drop x zero xs h = h
Below-drop x (suc k) [] h = h
Below-drop x (suc k) (y ∷ xs) h = Below-drop x k xs h.1

Below-take :
    (x : Text) (k : ℕ) (xs : List Text) → Below bytes_le x xs → Below bytes_le x (take k xs)
Below-take x zero xs h = tt
Below-take x (suc k) [] h = h
Below-take x (suc k) (y ∷ xs) h = (h.0, Below-take x k xs h.1)

drop-IsSorted : (k : ℕ) (xs : List Text) → IsSorted bytes_le xs → IsSorted bytes_le (drop k xs)
drop-IsSorted zero xs h = h
drop-IsSorted (suc k) [] h = h
drop-IsSorted (suc k) (x ∷ xs) h = drop-IsSorted k xs h.1

take-IsSorted : (k : ℕ) (xs : List Text) → IsSorted bytes_le xs → IsSorted bytes_le (take k xs)
take-IsSorted zero xs h = tt
take-IsSorted (suc k) [] h = h
take-IsSorted (suc k) (x ∷ xs) h = (Below-take x k xs h.0, take-IsSorted k xs h.1)

list_head : {x y : Text} {xs ys : List Text} → (x ∷ xs) ≡ (y ∷ ys) → x ≡ y
list_head e = cc

module _ (name : Text) where
  -- behind an entry that is greater there is no such name
  contains-above :
      (m : Text) (xs : List Text)
      → Below bytes_le m xs
      → bytes_le m name ≡ false
      → contains xs name ≡ false
  contains-above m [] b h = refl
  contains-above m (x ∷ xs) b h = elim (Bool-cases (name == x)) [
    | inl same ↦
        let eq = (==_iff name x).0 same in absurd (false≢true (sym h ∙ ap (bytes_le m) eq ∙ b.0))
    | inr other ↦ rw other (contains-above m xs b.1 h)
  ]

  contains-greater :
      (x : Text) (xs : List Text)
      → Below bytes_le x xs
      → bytes_le x name ≡ false
      → contains (x ∷ xs) name ≡ false
  contains-greater x xs b h = elim (Bool-cases (name == x)) [
    | inl same ↦
        let eq = (==_iff name x).0 same in
        absurd (false≢true (sym h ∙ ap (bytes_le x) eq ∙ bytes_le_refl x))
    | inr other ↦ rw other (contains-above x xs b h)
  ]

  -- where the entry at a place is not greater, the part from there on decides
  contains-drop :
      (k : ℕ) (xs : List Text) {m : Text} {back : List Text}
      → IsSorted bytes_le xs
      → drop k xs ≡ m ∷ back
      → bytes_le m name ≡ true
      → contains (drop k xs) name ≡ contains xs name
  contains-drop zero xs s e h = refl
  contains-drop (suc k) [] s e h = refl
  contains-drop (suc k) (x ∷ xs) {m = m} {back = back} s e h = elim (Bool-cases (name == x)) [
    | inl same ↦
        let eq = (==_iff name x).0 same in
        let below : Below bytes_le x (m ∷ back) = rw e at (Below-drop x k xs s.0) in
        let found : m ≡ name = bytes_le-antisym m name h (ap (λ n. bytes_le n m) eq ∙ below.0) in
        rw same (
          ap (λ l. contains l name) e
          ∙ ap (λ t. t || contains back name) ((==_iff name m).1 (sym found)))
    | inr other ↦ rw other (contains-drop k xs s.1 e h)
  ]

  -- where it is greater, any part up to there decides
  contains-take :
      (j k : ℕ) (xs : List Text) {m : Text} {back : List Text}
      → IsSorted bytes_le xs
      → drop k xs ≡ m ∷ back
      → bytes_le m name ≡ false
      → k ≤ j
      → contains (take j xs) name ≡ contains xs name
  contains-take j zero [] s e h le = cc
  contains-take zero zero (x ∷ xs) s e h le =
      let first : bytes_le x name ≡ false = ap (λ n. bytes_le n name) (list_head e) ∙ h in
      sym (contains-greater x xs s.0 first)
  contains-take (suc j) zero (x ∷ xs) s e h le =
      let first : bytes_le x name ≡ false = ap (λ n. bytes_le n name) (list_head e) ∙ h in
      contains-greater x (take j xs) (Below-take x j xs s.0) first
      ∙ sym (contains-greater x xs s.0 first)
  contains-take zero (suc k) xs s e h le = absurd (omega arith)
  contains-take (suc j) (suc k) [] s e h le = refl
  contains-take (suc j) (suc k) (x ∷ xs) s e h le =
      ap (λ t. name == x || t) (contains-take j k xs s.1 e h (omega arith))

  -- one round of the search, by the rounds that follow
  round :
      (fuel half : ℕ) (all upper : List Text)
      → half ≡ length all / 2
      → 2 ≤ length all
      → length all ≤ suc fuel
      → drop half all ≡ upper
      → IsSorted bytes_le all
      → ((xs : List Text)
          → length xs ≤ fuel
          → IsSorted bytes_le xs
          → search fuel name xs ≡ contains xs name)
      → search fuel name (by_middle name upper (take (length all - half) all)) ≡ contains all name
  round fuel half all [] is_half many few e s later =
      let none_left = ap length e in
      absurd (omega (arith, none_left, length-drop half all, is_half, many))
  round fuel half all (m ∷ back) is_half many few e s later = elim (Bool-cases (bytes_le m name)) [
    | inl low ↦
        let sorted : IsSorted bytes_le (m ∷ back) = rw e at (drop-IsSorted half all s) in
        let sizes = ap length e in
        let fits : length (m ∷ back) ≤ fuel =
          omega (arith, sizes, length-drop half all, is_half, many, few) in
        rw low (
          later (m ∷ back) fits sorted
          ∙ ap (λ l. contains l name) (sym e)
          ∙ contains-drop half all s e low)
    | inr high ↦
        let fits : length (take (length all - half) all) ≤ fuel =
          omega (arith, length-take (length all - half) all, is_half, many, few) in
        rw high (
          later (take (length all - half) all) fits (take-IsSorted (length all - half) all s)
          ∙ contains-take (length all - half) half all s e high (omega (arith, is_half)))
  ]

  -- On a sorted list, with enough rounds, the search finds the names of the list and no others.
  search-contains :
      (fuel : ℕ) (xs : List Text)
      → length xs ≤ fuel
      → IsSorted bytes_le xs
      → search fuel name xs ≡ contains xs name
  unfolding search
  search-contains zero [] few s = refl
  search-contains zero (x ∷ xs) few s = absurd (omega arith)
  search-contains (suc fuel) [] few s = refl
  search-contains (suc fuel) (x ∷ []) few s = ground (arith, ==_comm x name)
  search-contains (suc fuel) (x ∷ y ∷ rest) few s =
      let all : List Text = x ∷ y ∷ rest in
      round fuel (length all / 2) all (drop (length all / 2) all) refl (omega arith) few refl s
        (λ xs fits sorted. search-contains fuel xs fits sorted)

-- A binary search of a sorted list finds exactly the names in it.
pub binary_search-contains :
    (xs : List Text) (name : Text) → IsSorted bytes_le xs → binary_search xs name ≡ contains xs name
unfolding binary_search
binary_search-contains xs name s = search-contains name (length xs) xs (omega arith) s
