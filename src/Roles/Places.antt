-- ===== src/Roles/Places.antt =====
-- A list as long as a list without repetitions, all of whose elements it has, has no repetitions.
use dawnchat_api.Prelude.{
  suc, ◌≤◌, true, false, List, [], ◌∷◌, String, ◌≡◌, refl, sym, ap, ◌∙◌, inl, inr, arith,
  Bool-cases, ◌==◌, ==_iff, ==_refl, string_eq, if◌then◌else◌,
}
use dawnchat_api.Models.{contains, length}
use dawnchat_api.Messages.ReplyLists.{IsDistinct}

-- The list without the first occurrence of the element.
unfoldable without : String → List String → List String
without x [] = []
without x (y ∷ ys) = if y == x then ys else y ∷ without x ys

abbrev pub IsWithin : List String → List String → Type 0
IsWithin xs ys = (x : String) → contains xs x ≡ true → contains ys x ≡ true

length-without : (x : String) (xs : List String) → length xs ≤ suc (length (without x xs))
unfolding without
length-without x [] = omega arith
length-without x (y ∷ ys) = ground (arith, length-without x ys)

contains-without :
    (x z : String) (xs : List String) → contains (without x xs) z ≡ true → contains xs z ≡ true
unfolding without contains
contains-without x z [] h = h
contains-without x z (y ∷ ys) h = ground (arith, contains-without x z ys)

without-lacks : (x : String) (xs : List String) → IsDistinct xs → contains (without x xs) x ≡ false
unfolding without contains
without-lacks x [] d = refl
without-lacks x (y ∷ ys) d = elim (Bool-cases (y == x)) [
  | inl same ↦ ground (arith, ap (contains ys) ((==_iff y x).0 same), d.0)
  | inr other ↦ ground (arith, without-lacks x ys d.1, ==_iff x y, ==_iff y x)
]

without-IsDistinct : (x : String) (xs : List String) → IsDistinct xs → IsDistinct (without x xs)
unfolding without
without-IsDistinct x [] d = tt
without-IsDistinct x (y ∷ ys) d = elim (Bool-cases (y == x)) [
  | inl same ↦ let here : without x (y ∷ ys) ≡ ys = ground arith in rw here d.1
  | inr other ↦
      let kept : without x (y ∷ ys) ≡ y ∷ without x ys = ground arith in
      let new : contains (without x ys) y ≡ false = elim (Bool-cases (contains (without x ys) y)) [
        | inl found ↦ ground (arith, contains-without x y ys found, d.0)
        | inr absent ↦ absent
      ] in
      rw kept (new, without-IsDistinct x ys d.1)
]

without-IsWithin :
    (y : String) (xs ys : List String)
    → IsDistinct xs
    → IsWithin xs (y ∷ ys)
    → IsWithin (without y xs) ys
unfolding contains
without-IsWithin y xs ys d w z h = elim (Bool-cases (z == y)) [
  | inl same ↦
      let there : contains (without y xs) y ≡ true =
        ap (contains (without y xs)) (sym ((==_iff z y).0 same)) ∙ h in
      ground (arith, without-lacks y xs d, there)
  | inr other ↦ ground (arith, w z (contains-without y z xs h))
]

shorter : (xs ys : List String) → IsDistinct xs → IsWithin xs ys → length xs ≤ length ys
unfolding contains
shorter [] [] d w = omega arith
shorter (x ∷ xs) [] d w = ground (arith, w x, ==_refl x)
shorter xs (y ∷ ys) d w =
    let rest =
      shorter (without y xs) ys (without-IsDistinct y xs d) (without-IsWithin y xs ys d w) in
    let less = length-without y xs in omega arith

pub IsDistinct-of_IsWithin :
    (xs ys : List String) → IsDistinct xs → IsWithin xs ys → length ys ≤ length xs → IsDistinct ys
unfolding contains
IsDistinct-of_IsWithin xs [] d w l = tt
IsDistinct-of_IsWithin xs (y ∷ ys) d w l = elim (Bool-cases (contains ys y)) [
  | inl again ↦
      let narrow : IsWithin xs ys = λ z h. elim (Bool-cases (z == y)) [
        | inl same ↦ ap (contains ys) ((==_iff z y).0 same) ∙ again
        | inr other ↦ ground (arith, w z h)
      ] in
      let bound = shorter xs ys d narrow in
      (ground arith, IsDistinct-of_IsWithin xs ys d narrow (omega arith))
  | inr new ↦
      let less = length-without y xs in
      (
        new,
        IsDistinct-of_IsWithin (without y xs) ys (without-IsDistinct y xs d)
            (without-IsWithin y xs ys d w) (omega arith),
      )
]
