-- ===== src/Stellar/Memo.antt =====
-- The truncation of a memo.
use xgamefi.Prelude.{
  ℕ, zero, suc, ◌≤◌, ◌≡◌, ◌⊎◌, inl, inr, refl, arith, false, [], ◌∷◌, ◌++◌, Text, length, take,
  drop, Bool-cases, leb, leb→le,
}
use xgamefi.Stellar.{byte_at, is_continuation, cut_point, truncate_text_memo}

-- The cut is at most where the search began, and falls before no continuation byte.
cut_point-boundary :
    (buf : Text) (e : ℕ)
    → (cut_point buf e ≤ e)
      × ((cut_point buf e ≡ 0) ⊎ (is_continuation (byte_at buf (cut_point buf e)) ≡ false))
unfolding cut_point
cut_point-boundary buf zero = (omega arith, inl refl)
cut_point-boundary buf (suc e) =
    let ih = cut_point-boundary buf e in
    elim (Bool-cases (is_continuation (byte_at buf (suc e)))) [
      | inl more ↦ rw more (omega arith, ih.1)
      | inr done ↦ rw done (omega arith, inr done)
    ]

length-take_le : (n : ℕ) (xs : Text) → length (take n xs) ≤ n
length-take_le zero xs = omega arith
length-take_le (suc n) [] = omega arith
length-take_le (suc n) (x ∷ xs) = omega (arith, length-take_le n xs)

take-append-drop : (n : ℕ) (xs : Text) → take n xs ++ drop n xs ≡ xs
take-append-drop zero xs = refl
take-append-drop (suc n) [] = refl
take-append-drop (suc n) (x ∷ xs) = rw (take-append-drop n xs)

-- A memo fits into the 28 bytes of a text memo, and it begins as the given text does. What was
-- cut off is nothing, or the cut stands at the start of a UTF-8 character or of the text.
pub truncate_text_memo_fits :
    (memo : Text)
    → (length (truncate_text_memo memo) ≤ 28)
      × ((truncate_text_memo memo ≡ memo)
          ⊎ ((n : ℕ) × (truncate_text_memo memo ≡ take n memo)
              × (n ≤ 28)
              × ((n ≡ 0) ⊎ (is_continuation (byte_at memo n) ≡ false))))
unfolding truncate_text_memo
truncate_text_memo_fits memo =
    let cut = cut_point memo 28 in
    let b = cut_point-boundary memo 28 in
    let l = length-take_le cut memo in
    elim (Bool-cases (leb (length memo) 28)) [
      | inl short ↦ rw short (leb→le _ _ short, inl refl)
      | inr long ↦ rw long (omega (arith, l), inr (cut, refl, b.0, b.1))
    ]
