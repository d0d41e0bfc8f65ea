-- ===== src/Hls/Stream/Numbering.antt =====
-- The numbers and the times of the segments of one stream.
use oxide_cast.Prelude.{
  ℕ, zero, suc, ◌+◌, ◌-◌, ◌*◌, ◌/◌, ◌≤◌, ◌≡◌, refl, true, inl, inr, List, [], ◌∷◌, ◌++◌, length,
  drop, Bool-cases, arith,
}
use oxide_cast.Hls.Stream.{Types, HlsSegment, retain_young, is_old, media_segments}

module _ {T : Types} where
  -- Complete segments with the numbers from `n` up to `last`, made one after the other from the
  -- time `lo` to the time `hi`.
  abbrev pub Chain : ℕ → ℕ → List (HlsSegment T) → ℕ → ℕ → Type 0
  Chain n lo [] last hi = (n ≡ last) × (lo ≤ hi)
  Chain n lo (x ∷ xs) last hi =
      (x.sequence_number ≡ n)
      × (lo ≤ x.created_at)
      × (x.is_complete ≡ true)
      × Chain (n + 1) x.created_at xs last hi

  pub Chain-length :
      (n lo : ℕ) (xs : List (HlsSegment T)) (last hi : ℕ)
      → Chain n lo xs last hi
      → n + length xs ≡ last
  Chain-length n lo [] last hi c = omega arith
  Chain-length n lo (x ∷ xs) last hi c =
      omega (arith, Chain-length (n + 1) x.created_at xs last hi c.3)

  pub Chain-push :
      (n lo : ℕ) (xs : List (HlsSegment T)) (last hi : ℕ) (x : HlsSegment T)
      → Chain n lo xs last hi
      → x.sequence_number ≡ last
      → hi ≤ x.created_at
      → x.is_complete ≡ true
      → Chain n lo (xs ++ (x ∷ [])) (last + 1) x.created_at
  Chain-push n lo [] last hi x c seq late whole =
      (omega arith, omega arith, whole, (omega arith, omega arith))
  Chain-push n lo (y ∷ xs) last hi x c seq late whole =
      (c.0, c.1, c.2, Chain-push (n + 1) y.created_at xs last hi x c.3 seq late whole)

  -- The segments that are left after the first few.
  abbrev pub Tail : List (HlsSegment T) → ℕ → ℕ → Type 0
  Tail xs last hi = (n : ℕ) × (lo : ℕ) × Chain n lo xs last hi

  pub Chain-drop :
      (k n lo : ℕ) (xs : List (HlsSegment T)) (last hi : ℕ)
      → Chain n lo xs last hi
      → Tail (drop k xs) last hi
  Chain-drop zero n lo xs last hi c = (n, lo, c)
  Chain-drop (suc k) n lo [] last hi c = (n, lo, c)
  Chain-drop (suc k) n lo (x ∷ xs) last hi c = Chain-drop k (n + 1) x.created_at xs last hi c.3

  -- What follows a young segment is young.
  retain_young_all :
      (now interval n lo : ℕ) (xs : List (HlsSegment T)) (last hi : ℕ)
      → Chain n lo xs last hi
      → (now - lo) / 1_000_000_000 ≤ interval * 2
      → retain_young now interval xs ≡ xs
  unfolding retain_young
  retain_young_all now interval n lo [] last hi c young = refl
  retain_young_all now interval n lo (x ∷ xs) last hi c young =
      let still : (now - x.created_at) / 1_000_000_000 ≤ interval * 2 = omega arith in
      let rest = retain_young_all now interval (n + 1) x.created_at xs last hi c.3 still in
      ground (arith, rest)

  pub Chain-retain_young :
      (now interval n lo : ℕ) (xs : List (HlsSegment T)) (last hi : ℕ)
      → Chain n lo xs last hi
      → Tail (retain_young now interval xs) last hi
  unfolding retain_young
  Chain-retain_young now interval n lo [] last hi c = (n, lo, c)
  Chain-retain_young now interval n lo (x ∷ xs) last hi c =
      elim (Bool-cases (is_old now interval x)) [
        | inl old ↦ rw (old) (Chain-retain_young now interval (n + 1) x.created_at xs last hi c.3)
        | inr young ↦
            let still : (now - x.created_at) / 1_000_000_000 ≤ interval * 2 = ground arith in
            rw (young, retain_young_all now interval (n + 1) x.created_at xs last hi c.3 still)
              (n, lo, c)
      ]

  -- All of them are listed in the playlist.
  pub Chain-media_segments :
      (n lo : ℕ) (xs : List (HlsSegment T)) (last hi : ℕ)
      → Chain n lo xs last hi
      → length (media_segments xs) ≡ length xs
  unfolding media_segments
  Chain-media_segments n lo [] last hi c = refl
  Chain-media_segments n lo (x ∷ xs) last hi c =
      ground (arith, Chain-media_segments (n + 1) x.created_at xs last hi c.3)
