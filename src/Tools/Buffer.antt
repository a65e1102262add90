-- ===== src/Tools/Buffer.antt =====
-- internal/tools/capped_buffer.go: a buffer that keeps the first bytes of what is written to it.
use mathlib.Core.List.{append-nil, append_assoc}
use pancakes_harness.Prelude.{
  ℕ, zero, suc, ◌+◌, ◌-◌, ◌≤◌, ◌<◌, ◌≡◌, refl, sym, ◌∙◌, ap, Bool, true, false, List, [], ◌∷◌, ◌++◌,
  arith, ltb, leb, if◌then◌else◌, length, take, length-append, Bool-cases, inl, inr,
}
use pancakes_harness.Prelude.Int.{ℤ, pos, negsuc}
use pancakes_harness.Bytes.{Str}

pub record CappedBuffer : Type 0 where
  pub max : ℕ
  pub buf : Str
  pub truncated : Bool

abbrev nat_of : ℤ → ℕ
nat_of (pos n) = n
nat_of (negsuc n) = 0

-- `newCappedBuffer`
unfoldable pub new_capped_buffer : ℤ → CappedBuffer
new_capped_buffer max = record { max = nat_of max; buf = []; truncated = false }

-- `Write`; `max - len` is positive exactly if `len < max`. All of `p` is reported as written.
unfoldable pub write : Str → CappedBuffer → CappedBuffer
unfolding take
write [] b = b
write (x ∷ p) b =
    let remaining = b.max - length b.buf in
    if leb b.max (length b.buf)
    then record b { truncated = true }
    else if ltb remaining (length (x ∷ p))
    then record b { buf = b.buf ++ take remaining (x ∷ p); truncated = true }
    else record b { buf = b.buf ++ (x ∷ p) }

unfoldable pub write_all : List Str → CappedBuffer → CappedBuffer
unfolding write
write_all [] b = b
write_all (p ∷ ps) b = write_all ps (write p b)

abbrev pub joined : List Str → Str
joined [] = []
joined (p ∷ ps) = p ++ joined ps

-- the buffer holds the first bytes of `s`, and knows whether there were more
abbrev Holds : Str → CappedBuffer → Type 0
Holds s b = (b.buf ≡ take b.max s) × (b.truncated ≡ ltb b.max (length s))

take_all : (n : ℕ) (s : Str) → length s ≤ n → take n s ≡ s
unfolding take
take_all zero [] h = refl
take_all (suc n) [] h = refl
take_all zero (x ∷ s) h = absurd (omega arith)
take_all (suc n) (x ∷ s) h = ap (λ t. x ∷ t) (take_all n s (omega arith))

length-take_full : (n : ℕ) (s : Str) → n ≤ length s → length (take n s) ≡ n
unfolding take
length-take_full zero s h = refl
length-take_full (suc n) [] h = absurd (omega arith)
length-take_full (suc n) (x ∷ s) h = omega (arith, length-take_full n s (omega arith))

take-append_le : (n k : ℕ) (s t : Str) → length s + k ≡ n → take n (s ++ t) ≡ s ++ take k t
unfolding take
take-append_le n k [] t h = ap (λ m. take m t) (omega arith)
take-append_le zero k (x ∷ s) t h = absurd (omega arith)
take-append_le (suc n) k (x ∷ s) t h = ap (λ l. x ∷ l) (take-append_le n k s t (omega arith))

take-append_ge : (n : ℕ) (s t : Str) → n ≤ length s → take n (s ++ t) ≡ take n s
unfolding take
take-append_ge zero s t h = refl
take-append_ge (suc n) [] t h = absurd (omega arith)
take-append_ge (suc n) (x ∷ s) t h = ap (λ l. x ∷ l) (take-append_ge n s t (omega arith))

length-take_short : (n : ℕ) (s : Str) → length (take n s) ≤ length s
unfolding take
length-take_short zero s = omega arith
length-take_short (suc n) [] = omega arith
length-take_short (suc n) (x ∷ s) = omega (arith, length-take_short n s)

-- a full buffer
write_full :
    (s p : Str) (b : CappedBuffer)
    → b.max ≤ length b.buf
    → b.buf ≡ take b.max s
    → (b.buf ≡ take b.max (s ++ p)) × (b.max ≤ length s)
write_full s p b full kept =
    let long : b.max ≤ length s = omega (arith, ap length kept, length-take_short b.max s) in
    (kept ∙ sym (take-append_ge b.max s p long), long)

-- a buffer with room has all of what was written
write_room : (s : Str) (b : CappedBuffer) → length b.buf < b.max → b.buf ≡ take b.max s → b.buf ≡ s
write_room s b room kept = elim (Bool-cases (leb b.max (length s))) [
  | inl long ↦ absurd (ground (arith, ap length kept, length-take_full b.max s (ground arith)))
  | inr short ↦ kept ∙ take_all b.max s (ground arith)
]

write-Holds : (s p : Str) (b : CappedBuffer) → Holds s b → Holds (s ++ p) (write p b)
unfolding write
write-Holds s [] b (kept, cut) = rw (append-nil s) (kept, cut)
write-Holds s (x ∷ p) b (kept, cut) = elim (Bool-cases (leb b.max (length b.buf))) [
  | inl full ↦
      let (same, long) = write_full s (x ∷ p) b (ground arith) kept in
      rw (write, full) (same, ground (arith, length-append s (x ∷ p)))
  | inr room ↦
      let all = write_room s b (ground arith) kept in
      let size = ap length all in
      elim (Bool-cases (ltb (b.max - length b.buf) (length (x ∷ p)))) [
        | inl over ↦
            rw (write, room, over)
              (
                ap (λ t. t ++ take (b.max - length b.buf) (x ∷ p)) all
                    ∙ sym (take-append_le b.max (b.max - length b.buf) s (x ∷ p) (ground arith)),
                ground (arith, length-append s (x ∷ p)),
              )
        | inr fits ↦
            rw (write, room, fits)
              (
                ap (λ t. t ++ (x ∷ p)) all
                    ∙ sym (take_all b.max (s ++ (x ∷ p)) (ground (arith, length-append s (x ∷ p)))),
                ground (arith, length-append s (x ∷ p)),
              )
      ]
]

write-max : (p : Str) (b : CappedBuffer) → (write p b).max ≡ b.max
unfolding write
write-max [] b = refl
write-max (x ∷ p) b = elim (Bool-cases (leb b.max (length b.buf))) [
  | inl full ↦ rw (write, full) refl
  | inr room ↦ elim (Bool-cases (ltb (b.max - length b.buf) (length (x ∷ p)))) [
    | inl over ↦ rw (write, room, over) refl
    | inr fits ↦ rw (write, room, fits) refl
  ]
]

write_all-max : (ps : List Str) (b : CappedBuffer) → (write_all ps b).max ≡ b.max
unfolding write_all
write_all-max [] b = refl
write_all-max (p ∷ ps) b = write_all-max ps (write p b) ∙ write-max p b

write_all-Holds :
    (ps : List Str) (s : Str) (b : CappedBuffer)
    → Holds s b
    → Holds (s ++ joined ps) (write_all ps b)
unfolding write_all
write_all-Holds [] s b h = rw (append-nil s) h
write_all-Holds (p ∷ ps) s b h =
    rw (← append_assoc s p (joined ps))
      (write_all-Holds ps (s ++ p) (write p b) (write-Holds s p b h))

-- After any writes, a buffer made with a bound that is not negative holds the first bytes of all
-- that was written, up to the bound, and is truncated exactly if more was written.
pub write_all_lem :
    (max : ℕ) (ps : List Str)
    → ((write_all ps (new_capped_buffer (pos max))).buf ≡ take max (joined ps))
      × ((write_all ps (new_capped_buffer (pos max))).truncated ≡ ltb max (length (joined ps)))
unfolding new_capped_buffer take
write_all_lem max ps =
    let b = new_capped_buffer (pos max) in
    let (kept, cut) = write_all-Holds ps [] b (take_start max, empty max) in
    let limit = write_all-max ps b in
    (kept ∙ ap (λ n. take n (joined ps)) limit, cut ∙ ap (λ n. ltb n (length (joined ps))) limit)
  where
    take_start : (n : ℕ) → [] ≡ take {A = ℕ} n []
    take_start zero = refl
    take_start (suc n) = refl

    empty : (n : ℕ) → false ≡ ltb n 0
    empty n = ground arith
