-- ===== src/Packet/CheckSum.antt =====
-- `BinaryPacketAssembler::GenerateCheckSum` on a vector: its `uint32_t` sum, and what it comes to.
use simutgw_src.Common.{
  ℕ, zero, suc, ◌+◌, ◌-◌, ◌%◌, ◌≤◌, ◌<◌, ◌≡◌, refl, ap, ◌∙◌, inl, inr, true, false, Option, none,
  some, List, [], ◌∷◌, arith, ltb, Option-cases, le-or-lt, le→not_ltb, lt→ltb, length, get_elem?,
  take, drop, add32, add64, u64_mod,
}

-- The loop `while (idx < size && idx < iBeginPos + bufLen)`, on fuel; `end` is the latter bound.
unfoldable pub check_sum_loop : ℕ → List ℕ → ℕ → ℕ → ℕ → Option ℕ
check_sum_loop zero bytes end idx cks = none
check_sum_loop (suc fuel) bytes end idx cks = elim (get_elem? bytes idx) [
  | none ↦ some cks
  | some x ↦ elim (ltb idx end) [
    | false ↦ some cks
    | true ↦ check_sum_loop fuel bytes end (idx + 1) (add32 cks x)
  ]
]

unfoldable pub generate_check_sum : List ℕ → ℕ → ℕ → Option ℕ
generate_check_sum bytes begin_pos buf_len =
    elim (check_sum_loop (suc (length bytes)) bytes (add64 begin_pos buf_len) begin_pos 0) [
      | none ↦ none
      | some cks ↦ some (cks % 256)
    ]

-- The sum of the bytes, without a bound.
abbrev pub sum : List ℕ → ℕ
sum [] = 0
sum (x ∷ xs) = x + sum xs

drop-some :
    (i : ℕ) (xs : List ℕ) (x : ℕ) → get_elem? xs i ≡ some x → drop i xs ≡ x ∷ drop (suc i) xs
drop-some i [] x h = cc
drop-some zero (y ∷ ys) x h = cc
drop-some (suc i) (y ∷ ys) x h = drop-some i ys x h

drop-none : (i : ℕ) (xs : List ℕ) → get_elem? xs i ≡ none → drop i xs ≡ []
drop-none zero [] h = refl
drop-none (suc i) [] h = refl
drop-none zero (y ∷ ys) h = cc
drop-none (suc i) (y ∷ ys) h = drop-none i ys h

get_elem?-bound : (i : ℕ) (xs : List ℕ) (x : ℕ) → get_elem? xs i ≡ some x → i < length xs
get_elem?-bound i [] x h = cc
get_elem?-bound zero (y ∷ ys) x h = omega arith
get_elem?-bound (suc i) (y ∷ ys) x h = omega (arith, get_elem?-bound i ys x h)

-- The sum of the bytes from `idx` to `end`.
abbrev pub window : List ℕ → ℕ → ℕ → ℕ
window bytes end idx = sum (take (end - idx) (drop idx bytes))

sum-take-nil : (k : ℕ) → sum (take k []) ≡ 0
sum-take-nil zero = refl
sum-take-nil (suc k) = refl

window-none : (bytes : List ℕ) (end idx : ℕ) → get_elem? bytes idx ≡ none → window bytes end idx ≡ 0
window-none bytes end idx e = rw (drop-none idx bytes e) (sum-take-nil (end - idx))

window-end : (bytes : List ℕ) (end idx : ℕ) → end ≤ idx → window bytes end idx ≡ 0
window-end bytes end idx l =
    let z : end - idx ≡ 0 = omega (arith, l) in ap (λ k. sum (take k (drop idx bytes))) z

window-some :
    (bytes : List ℕ) (end idx x : ℕ)
    → get_elem? bytes idx ≡ some x
    → idx < end
    → window bytes end idx ≡ x + window bytes end (idx + 1)
window-some bytes end idx x e l =
    let k : end - idx ≡ suc (end - (idx + 1)) = omega (arith, l) in
    let i : suc idx ≡ idx + 1 = omega arith in
    ap (λ k. sum (take k (drop idx bytes))) k
    ∙ ap (λ ys. sum (take (suc (end - (idx + 1))) ys)) (drop-some idx bytes x e)
    ∙ ap (λ j. x + sum (take (end - (idx + 1)) (drop j bytes))) i

-- The loop adds the bytes from `idx` to `end`, modulo 2^32.
check_sum_loop_lem :
    (fuel : ℕ) (bytes : List ℕ) (end idx cks : ℕ)
    → 1 ≤ fuel
    → length bytes + 1 ≤ fuel + idx
    → (r : ℕ) × (check_sum_loop fuel bytes end idx cks ≡ some r)
      × (r % 256 ≡ (cks + window bytes end idx) % 256)
unfolding check_sum_loop
check_sum_loop_lem zero bytes end idx cks f h = absurd (omega (arith, f))
check_sum_loop_lem (suc fuel) bytes end idx cks f h = elim (Option-cases (get_elem? bytes idx)) [
  | inl e ↦ (cks, rw (e, check_sum_loop) refl, omega (arith, window-none bytes end idx e))
  | inr (x, e) ↦ elim (le-or-lt end idx) [
    | inl l ↦ (
      cks,
      rw (e, check_sum_loop) (rw (le→not_ltb idx end l) refl),
      omega (arith, window-end bytes end idx l),
    )
    | inr l ↦
        let b = get_elem?-bound idx bytes x e in
        let (r, e1, e2) =
          check_sum_loop_lem fuel bytes end (idx + 1) (add32 cks x) (omega (arith, h, b))
            (omega (arith, h)) in
        (
          r,
          rw (e, check_sum_loop) (rw (lt→ltb idx end l) e1),
          omega (arith, e2, window-some bytes end idx x e l),
        )
  ]
]

-- `GenerateCheckSum` ends, and gives the sum of the bytes of the range, as far as there are any,
-- modulo 256: that its `uint32_t` sum wraps does not show. The range is to end below 2^64.
pub generate_check_sum_lem :
    (bytes : List ℕ) (begin_pos buf_len : ℕ)
    → begin_pos + buf_len < u64_mod
    → generate_check_sum bytes begin_pos buf_len
      ≡ some (sum (take buf_len (drop begin_pos bytes)) % 256)
unfolding generate_check_sum
generate_check_sum_lem bytes begin_pos buf_len h =
    let end = add64 begin_pos buf_len in
    let (r, e1, e2) =
      check_sum_loop_lem (suc (length bytes)) bytes end begin_pos 0 (omega arith) (omega arith) in
    let k : end - begin_pos ≡ buf_len = omega (arith, h) in
    rw (e1, generate_check_sum)
      (ap (λ x. some x) (e2 ∙ omega arith)
        ∙ ap (λ k. some (sum (take k (drop begin_pos bytes)) % 256)) k)
