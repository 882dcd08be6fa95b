-- ===== src/Base/Errors.antt =====
-- What a Python function returns or raises. Messages of the exceptions are left out.
use mathlib.Core.Path.{◌≡◌, refl, ap, ◌∙◌}
use mathlib.Core.List.{List, [], ◌∷◌, map, Memᴰ}
use mathlib.Core.List.Memᴰ
use mathlib.Core.Path.{subst, sym}
use mathlib.Core.Logic.{inl, inr}

pub data Error : Type 0 where
  key_error value_error zero_division_error type_error attribute_error : Error
  -- A `ValueError` of experiments/controls.py.
  heterogeneous_controls_error : Error

pub data Result {κ} (X : Type κ) : Type κ where
  err : Error → Result X
  ok : X → Result X

infixl 5 ◌>>=◌
abbrev pub ◌>>=◌ {ℓ κ} : {X : Type ℓ} {Y : Type κ} → Result X → (X → Result Y) → Result Y
err raised >>= next = err raised
ok value >>= next = next value

pub >>=-eq-ok {ℓ κ} :
    {X : Type ℓ} {Y : Type κ} (first : Result X) (next : X → Result Y) {y : Y}
    → (first >>= next) ≡ ok y
    → (x : X) × (first ≡ ok x) × (next x ≡ ok y)
>>=-eq-ok (err raised) next returned = cc
>>=-eq-ok (ok value) next returned = (value, refl, returned)

pub ok_inj {ℓ} : {A : Type ℓ} {a b : A} → ok a ≡ ok b → a ≡ b
ok_inj {A} {a} h = ap (λ (r : Result A). elim r [ ok x ↦ x | err e ↦ a ]) h

-- `[f(x) for x in xs]`, where `f` may raise: the first exception ends the loop.
abbrev pub map_ok {ℓ κ} : {A : Type ℓ} {B : Type κ} → (A → Result B) → List A → Result (List B)
map_ok f [] = ok []
map_ok f (x ∷ xs) = do y ← f x; ys ← map_ok f xs; ok (y ∷ ys)

module _ {ℓ κ} {A : Type ℓ} {B : Type κ} (f : A → Result B) where
  map_ok-cons :
      (x : A) (xs : List A) {ys : List B}
      → map_ok f (x ∷ xs) ≡ ok ys
      → (y : B) × (rest : List B) × (f x ≡ ok y) × (map_ok f xs ≡ ok rest) × (y ∷ rest ≡ ys)
  map_ok-cons x xs h =
      let (y, here, later) = >>=-eq-ok (f x) _ h in
      let (rest, there, last) = >>=-eq-ok (map_ok f xs) _ later in
      (y, rest, here, there, ok_inj last)

  -- Each result comes from an item.
  pub mem-map_ok :
      (xs : List A) {ys : List B} {y : B}
      → map_ok f xs ≡ ok ys
      → Memᴰ y ys
      → (x : A) × Memᴰ x xs × (f x ≡ ok y)
  mem-map_ok [] {ys} {y} h m = absurd (Memᴰ.not-nil (subst (Memᴰ y) (sym (ok_inj h)) m))
  mem-map_ok (x ∷ xs) {ys} {y} h m =
      let (z, rest, here, there, e) = map_ok-cons x xs h in
      elim (Memᴰ.cases_cons (subst (Memᴰ y) (sym e) m)) [
        | inl same ↦ (x, Memᴰ.head refl, here ∙ ap ok (sym same))
        | inr later ↦ let (a, n, found) = mem-map_ok xs there later in (a, Memᴰ.tail n, found)
      ]

  -- Each item has its result.
  pub map_ok-mem :
      (xs : List A) {ys : List B} {x : A}
      → map_ok f xs ≡ ok ys
      → Memᴰ x xs
      → (y : B) × Memᴰ y ys × (f x ≡ ok y)
  map_ok-mem [] h m = elim m [ ]
  map_ok-mem (x ∷ xs) h (Memᴰ.head e) =
      let (z, rest, here, there, same) = map_ok-cons x xs h in
      (z, subst (Memᴰ z) same (Memᴰ.head refl), ap f e ∙ here)
  map_ok-mem (x ∷ xs) h (Memᴰ.tail m) =
      let (z, rest, here, there, same) = map_ok-cons x xs h in
      let (y, n, found) = map_ok-mem xs there m in (y, subst (Memᴰ y) same (Memᴰ.tail n), found)

  pub map_ok_total :
      (xs : List A)
      → ((x : A) → Memᴰ x xs → (y : B) × (f x ≡ ok y))
      → (ys : List B) × (map_ok f xs ≡ ok ys)
  map_ok_total [] h = ([], refl)
  map_ok_total (x ∷ xs) h =
      let (y, here) = h x (Memᴰ.head refl) in
      let (ys, there) = map_ok_total xs (λ a m. h a (Memᴰ.tail m)) in
      (y ∷ ys, rw (here, there) refl)

  pub map_ok_of_all :
      (g : A → B) (xs : List A)
      → ((x : A) → Memᴰ x xs → f x ≡ ok (g x))
      → map_ok f xs ≡ ok (map g xs)
  map_ok_of_all g [] h = refl
  map_ok_of_all g (x ∷ xs) h =
      rw (h x (Memᴰ.head refl), map_ok_of_all g xs (λ y m. h y (Memᴰ.tail m)))
