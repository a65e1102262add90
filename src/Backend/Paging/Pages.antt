-- ===== src/Backend/Paging/Pages.antt =====
-- Pages are windows of the list, and consecutive pages join up; past the range of `int` a page is a
-- panic.
use native.Mathlib.Nat.{zero-add, suc-add}
use pancakes_harness.Prelude.{
  ℕ, zero, suc, ◌+◌, ◌-◌, ◌≤◌, ◌<◌, ◌≡◌, refl, sym, ◌∙◌, ◌↔◌, ap, true, false, List, [], ◌∷◌, ◌++◌,
  arith, ltb, leb, length, take, drop, Bool-cases, inl, inr,
}
use pancakes_harness.Prelude.Int.{ℤ}
use pancakes_harness.Prelude.Machine.{int_limit, add_int-pos, add_int-wraps}
use pancakes_harness.Backend.Paging.{
  page, slice_panic, from_offset, from_limit, slice, cut, page_of,
}

module _ {A : Type 0} where
  take-all : (n : ℕ) (xs : List A) → length xs ≤ n → take n xs ≡ xs
  unfolding take
  take-all zero [] h = refl
  take-all zero (x ∷ xs) h = absurd (omega arith)
  take-all (suc n) [] h = refl
  take-all (suc n) (x ∷ xs) h = ap (λ l. x ∷ l) (take-all n xs (omega arith))

  length-drop : (n : ℕ) (xs : List A) → length (drop n xs) ≡ length xs - n
  unfolding drop
  length-drop zero [] = refl
  length-drop zero (x ∷ xs) = omega arith
  length-drop (suc n) [] = omega arith
  length-drop (suc n) (x ∷ xs) = omega (arith, length-drop n xs)

  drop-nil : (n : ℕ) → drop n (◌++◌ {A = A} [] []) ≡ []
  unfolding drop
  drop-nil zero = refl
  drop-nil (suc n) = refl

  take-nil : (n : ℕ) → take n (◌++◌ {A = A} [] []) ≡ []
  unfolding take
  take-nil zero = refl
  take-nil (suc n) = refl

  take-none : (n : ℕ) (xs : List A) → length xs ≡ 0 → take n xs ≡ []
  take-none n [] h = take-nil n
  take-none n (x ∷ xs) h = absurd (omega arith)

  drop-drop : (s n : ℕ) (xs : List A) → drop (s + n) xs ≡ drop n (drop s xs)
  unfolding drop
  drop-drop zero n [] = rw zero-add
  drop-drop zero n (x ∷ xs) = rw zero-add
  drop-drop (suc s) n [] = rw (suc-add, drop-nil n)
  drop-drop (suc s) n (x ∷ xs) = rw suc-add (drop-drop s n xs)

  take-append : (n m : ℕ) (xs : List A) → take n xs ++ take m (drop n xs) ≡ take (n + m) xs
  unfolding take drop
  take-append zero m [] = rw zero-add
  take-append zero m (x ∷ xs) = rw zero-add
  take-append (suc n) m [] = rw (suc-add, take-nil m)
  take-append (suc n) m (x ∷ xs) = rw suc-add (ap (λ l. x ∷ l) (take-append n m xs))

  -- the window that a page shows
  abbrev pub window : ℕ → ℕ → List A → List A
  window start n xs = take n (drop start xs)

  cut-window :
      (start n : ℕ) (xs : List A)
      → start ≤ length xs
      → start + n < int_limit
      → cut start n xs ≡ page (window start n xs)
  unfolding cut slice
  cut-window start n xs inside small =
      let sum = add_int-pos start n small in
      elim (Bool-cases (leb (start + n) (length xs))) [
        | inl within ↦
            let order : leb start (start + n) ≡ true = ground arith in
            let e : start + n - start ≡ n = omega arith in rw (cut, sum, within, order, e) refl
        | inr past ↦
            let order : leb start (length xs) ≡ true = ground arith in
            rw (cut, sum, past, order)
              (ap page (
                take-all (length xs - start) (drop start xs) (omega (arith, length-drop start xs))
                ∙ sym (take-all n (drop start xs) (ground (arith, length-drop start xs)))))
      ]

  -- Within the range of `int` a page is the window of the list at the offset, of at most the limit's
  -- length, where an offset below 0 reads as 0, a limit that is not positive as the whole length,
  -- and an offset past the end gives the empty page.
  pub page_of-window :
      (limit offset : ℤ) (xs : List A)
      → from_offset offset + from_limit limit (length xs) < int_limit
      → page_of limit offset xs
        ≡ page (window (from_offset offset) (from_limit limit (length xs)) xs)
  unfolding page_of
  page_of-window limit offset xs small = elim (Bool-cases (ltb (length xs) (from_offset offset))) [
    | inr inside ↦
        rw inside
          (cut-window (from_offset offset) (from_limit limit (length xs)) xs (ground arith) small)
    | inl past ↦ rw past (ap page (sym (past_end (ground arith))))
  ]
    where
      past_end :
          length xs < from_offset offset
          → window (from_offset offset) (from_limit limit (length xs)) xs ≡ []
      past_end h =
          take-none (from_limit limit (length xs)) (drop (from_offset offset) xs)
            (omega (arith, length-drop (from_offset offset) xs))

  page_of-panic :
      (limit offset : ℤ) (xs : List A)
      → from_offset offset ≤ length xs
      → length xs < int_limit
      → from_limit limit (length xs) < int_limit
      → int_limit ≤ from_offset offset + from_limit limit (length xs)
      → page_of limit offset xs ≡ slice_panic
  unfolding page_of cut slice
  page_of-panic limit offset xs inside long small large =
      let a : ltb (length xs) (from_offset offset) ≡ false = ground arith in
      let sum =
        add_int-wraps (from_offset offset) (from_limit limit (length xs)) (omega arith) small
          large in
      rw (a, cut, sum)

  -- For a list and a limit within the range of `int`, `ListManifests` panics exactly if the offset is
  -- within the list and its sum with the limit leaves that range, so that it wraps around to a negative
  -- end.
  pub page_of_panic_iff :
      (limit offset : ℤ) (xs : List A)
      → length xs < int_limit
      → from_limit limit (length xs) < int_limit
      → (page_of limit offset xs ≡ slice_panic) ↔ (
          (from_offset offset ≤ length xs)
          × (int_limit ≤ from_offset offset + from_limit limit (length xs)))
  unfolding page_of
  page_of_panic_iff limit offset xs long small = (
    λ h. elim (Bool-cases (ltb (length xs) (from_offset offset))) [
      | inl past ↦ absurd (let e = (rw (page_of, past) at h) in ground arith)
      | inr inside ↦
          elim (Bool-cases (leb int_limit (from_offset offset + from_limit limit (length xs)))) [
            | inl large ↦ (ground arith, ground arith)
            | inr fits ↦ absurd (
                let e = page_of-window limit offset xs (ground arith) in
                let f : page _ ≡ slice_panic = sym e ∙ h in ground arith)
          ]
    ],
    λ (inside, large). page_of-panic limit offset xs inside long small large,
  )

  -- Two pages one after the other are the page of both lengths.
  pub window-append :
      (start n m : ℕ) (xs : List A)
      → window start n xs ++ window (start + n) m xs ≡ window start (n + m) xs
  window-append start n m xs = rw (drop-drop start n xs) (take-append n m (drop start xs))
