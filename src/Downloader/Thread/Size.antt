-- ===== src/Downloader/Thread/Size.antt =====
-- n_downloader.c: the size that `N_Download` allocates.
use deconz_lib.Base.{
  ℕ, zero, suc, ◌+◌, ◌*◌, ◌%◌, ◌≤◌, ◌<◌, ◌^◌, ◌≡◌, refl, ap, ◌∙◌, ◌⊎◌, inl, inr, Option, none, some,
  arith, u32, ltb, leb, Bool-cases, ltb→lt, lt→ltb, le→ltb,
}
use deconz_lib.Downloader.Thread.{round_up, alloc_size, entry_size}

round_up-more :
    (fuel size mul : ℕ)
    → u32 (mul * 128) < size
    → round_up (suc fuel) size mul ≡ round_up fuel size (u32 (mul + 1))
unfolding round_up
round_up-more fuel size mul h = rw (lt→ltb _ _ h) refl

round_up-end :
    (fuel size mul : ℕ) → size ≤ u32 (mul * 128) → round_up (suc fuel) size mul ≡ some mul
unfolding round_up
round_up-end fuel size mul h = rw (le→ltb _ _ h) refl

-- What the rounding gives: a multiple of 128 that is large enough, and by less than 128.
abbrev pub IsRounded : ℕ → ℕ → Type 0
IsRounded size mul =
    (size ≤ mul * 128) × (mul * 128 < 2 ^ 32) × ((mul ≡ 8) ⊎ (mul * 128 < size + 128))

round_up_lem :
    (fuel size mul : ℕ)
    → size + 128 ≤ 2 ^ 32
    → mul * 128 < 2 ^ 32
    → (mul ≡ 8) ⊎ (mul * 128 < size + 128)
    → size ≤ (fuel + mul) * 128
    → (m : ℕ) × (round_up (suc fuel) size mul ≡ some m) × IsRounded size m
round_up_lem zero size mul room small near enough = (
  mul,
  round_up-end zero size mul (omega (arith, enough, small)),
  (omega (arith, enough), small, near),
)
round_up_lem (suc fuel) size mul room small near enough = elim (Bool-cases (ltb (mul * 128) size)) [
  | inr g ↦
      let big : size ≤ mul * 128 = ground (arith, g) in
      (mul, round_up-end (suc fuel) size mul (omega (arith, big, small)), (big, small, near))
  | inl g ↦
      let l : mul * 128 < size = ltb→lt _ _ g in
      let next : u32 (mul + 1) ≡ mul + 1 = omega (arith, small) in
      let (m, e, r) =
        round_up_lem fuel size (mul + 1) room (omega (arith, l, room)) (inr (omega (arith, l)))
          (omega (arith, enough)) in
      (
        m,
        round_up-more (suc fuel) size mul (omega (arith, l, small))
            ∙ ap (round_up (suc fuel) size) next
            ∙ e,
        r,
      )
]

round_up_endless :
    (fuel size mul : ℕ) → 2 ^ 32 < size + 128 → size < 2 ^ 32 → round_up fuel size mul ≡ none
unfolding round_up
round_up_endless zero size mul h s = refl
round_up_endless (suc fuel) size mul h s =
    round_up-more fuel size mul (omega (arith, h)) ∙ round_up_endless fuel size (u32 (mul + 1)) h s

-- The entry, the url with its NUL and the buffer.
abbrev pub needed : ℕ → ℕ → ℕ
needed maxsize urllen = entry_size + maxsize + (urllen + 1)

-- For an entry, a url and a buffer that take at most 2 ^ 32 - 128 bytes: the loop that rounds the
-- size ends with a multiple of 128 below 2 ^ 32 that is enough for all of them, and larger by less
-- than 128 or the least size of 1024. If they take more, but less than 2 ^ 32 bytes, it has not
-- ended after any number of rounds.
pub alloc_size_lem :
    (rounds maxsize urllen : ℕ)
    → needed maxsize urllen < 2 ^ 32
    → ((needed maxsize urllen + 128 ≤ 2 ^ 32)
        × (n : ℕ) × (alloc_size maxsize urllen ≡ some n)
        × (n < 2 ^ 32)
        × (needed maxsize urllen ≤ n)
        × (n % 128 ≡ 0)
        × ((n ≡ 1024) ⊎ (n < needed maxsize urllen + 128)))
      ⊎ (2 ^ 32 < needed maxsize urllen + 128)
        × (alloc_size maxsize urllen ≡ none)
        × (round_up rounds (needed maxsize urllen) 8 ≡ none)
unfolding alloc_size
alloc_size_lem rounds maxsize urllen h =
    elim (Bool-cases (leb (needed maxsize urllen + 128) (2 ^ 32))) [
      | inl l ↦
          let room : needed maxsize urllen + 128 ≤ 2 ^ 32 = ground (arith, l) in
          let (m, e, (big, small, near)) =
            round_up_lem (needed maxsize urllen) (needed maxsize urllen) 8 room (omega arith)
              (inl refl) (omega arith) in
          inl (
            room,
            m * 128,
            ap times_128 (sized ∙ e)
                ∙ ap some (let s : u32 (m * 128) ≡ m * 128 = omega (arith, small) in s),
            small,
            big,
            omega arith,
            near_128 m near,
          )
      | inr g ↦
          let over : 2 ^ 32 < needed maxsize urllen + 128 = ground (arith, g) in
          inr (
            over,
            ap times_128 (
                sized
                ∙ round_up_endless (suc (needed maxsize urllen)) (needed maxsize urllen) 8 over h),
            round_up_endless rounds (needed maxsize urllen) 8 over h,
          )
    ]
  where
    times_128 : Option ℕ → Option ℕ
    times_128 r = elim r [ none ↦ none | some mul ↦ some (u32 (mul * 128)) ]

    sized :
        round_up
          (u32 (u32 (entry_size + maxsize) + u32 (urllen + 1)) + 1)
          (u32 (u32 (entry_size + maxsize) + u32 (urllen + 1)))
          8
        ≡ round_up (suc (needed maxsize urllen)) (needed maxsize urllen) 8
    sized =
        let size : u32 (u32 (entry_size + maxsize) + u32 (urllen + 1)) ≡ needed maxsize urllen =
          omega (arith, h) in
        ap (λ n. round_up (n + 1) n 8) size
        ∙ ap (λ n. round_up n (needed maxsize urllen) 8)
            (let one : needed maxsize urllen + 1 ≡ suc (needed maxsize urllen) = omega arith in one)

    near_128 :
        (m : ℕ)
        → (m ≡ 8) ⊎ (m * 128 < needed maxsize urllen + 128)
        → (m * 128 ≡ 1024) ⊎ (m * 128 < needed maxsize urllen + 128)
    near_128 m (inl q) = inl (omega (arith, q))
    near_128 m (inr q) = inr q
