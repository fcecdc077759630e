-- ===== src/Controller/Standalone/Counted.antt =====
-- The gauges of a domain.
use Prim.Native.Nat.{ℕ, suc, ◌+◌ as ◌+ₙ◌}
use opendps.Prelude.{
  ◌≡◌, refl, sym, ◌∙◌, ap, subst, inl, inr, Bool, true, false, not, ◌&&◌, Bool-cases, [], ◌∷◌,
  arith,
}
use opendps.Num.{
  ℚ, All, ◌+◌, ◌-◌, ◌*◌, ◌/◌, int, leb, max, sum_map, ◌<◌, le_or_lt, le_of_lt, not-lt_of_le,
  mul_le_of_le_div, mul_div_assoc, div_self, mul-one, div_le_div_right, add-zero, ltb, sum, ◌≤◌,
  le_refl, le_trans, add_le_add, add_assoc, zero-add, le_add_right, max_le, sub_le_self,
}
use opendps.Dict.{Dict, nat_key, get_or, values, length, filter, All-get_or}
use opendps.Controller.Standalone.Stats.{
  Counts, ratio, count_gpu, count_gpus, stats_of, domain_stats,
}

count_gpu-total :
    (t draw cap : ℚ) (c : Counts)
    → (count_gpu t draw cap c).hot +ₙ (count_gpu t draw cap c).idle ≡ suc (c.hot +ₙ c.idle)
unfolding count_gpu
count_gpu-total t draw cap c = elim (Bool-cases (ltb (ratio draw cap) t)) [
  | inl idle ↦ rw idle (omega arith)
  | inr hot ↦ rw hot (omega arith)
]

count_gpus-total :
    (t : ℚ) (draws caps : Dict ℕ ℚ) (c : Counts)
    → (count_gpus t draws caps c).hot +ₙ (count_gpus t draws caps c).idle
      ≡ (c.hot +ₙ c.idle) +ₙ length caps
unfolding count_gpus
count_gpus-total t draws [] c = omega arith
count_gpus-total t draws ((g, cap) ∷ caps) c = omega (
  arith,
  count_gpus-total t draws caps (count_gpu t (get_or g (int 0) draws) cap c),
  count_gpu-total t (get_or g (int 0) draws) cap c,
)

module _ (t : ℚ) (draws : Dict ℕ ℚ) (nonneg : All (λ e. int 0 ≤ e.1) draws) where
  draw_nonneg : (g : ℕ) → int 0 ≤ get_or g (int 0) draws
  draw_nonneg g = All-get_or (λ w. int 0 ≤ w) g (int 0) draws (le_refl (int 0)) nonneg

  count_gpu-stranded :
      (g : ℕ) (cap : ℚ) (c : Counts)
      → int 0 ≤ cap
      → (count_gpu t (get_or g (int 0) draws) cap c).stranded ≤ c.stranded + cap
  unfolding count_gpu
  count_gpu-stranded g cap c h = elim (Bool-cases (ltb (ratio (get_or g (int 0) draws) cap) t)) [
    | inl idle ↦ rw idle (add_le_add (le_refl c.stranded) (max_le h (sub_le_self (draw_nonneg g))))
    | inr hot ↦ rw hot (le_add_right h)
  ]

  count_gpus-stranded :
      (caps : Dict ℕ ℚ) (c : Counts)
      → All (λ e. int 0 ≤ e.1) caps
      → (count_gpus t draws caps c).stranded ≤ c.stranded + sum (values caps)
  unfolding count_gpus sum
  count_gpus-stranded [] c a = le_add_right (le_refl (int 0))
  count_gpus-stranded ((g, cap) ∷ caps) c (h, a) =
      le_trans (count_gpus-stranded caps (count_gpu t (get_or g (int 0) draws) cap c) a) (
        subst (λ r. (count_gpu t (get_or g (int 0) draws) cap c).stranded + sum (values caps) ≤ r)
          (add_assoc c.stranded cap (sum (values caps)))
          (add_le_add (count_gpu-stranded g cap c h) (le_refl (sum (values caps)))))

-- Every cap is counted once, as hot or as idle, and the stranded watts are at most the sum of the
-- caps, for draws and caps that are not negative.
pub domain_stats-le :
    (draws caps : Dict ℕ ℚ) (t : ℚ)
    → All (λ e. int 0 ≤ e.1) draws
    → All (λ e. int 0 ≤ e.1) caps
    → ((domain_stats draws caps t).hot_count +ₙ (domain_stats draws caps t).idle_count
        ≡ length caps)
      × ((domain_stats draws caps t).idle_stranded_w ≤ (domain_stats draws caps t).cap_w)
unfolding domain_stats stats_of
domain_stats-le draws caps t d a =
    let start : Counts = record { stranded = int 0; hot = 0; idle = 0 } in
    (
      omega (arith, count_gpus-total t draws caps start),
      subst (λ r. (count_gpus t draws caps start).stranded ≤ r) (zero-add (sum (values caps)))
          (count_gpus-stranded t draws d caps start a),
    )

-- A GPU is hot when it has a cap and draws at least the threshold's part of it.
unfoldable pub is_busy : ℚ → Dict ℕ ℚ → ℕ × ℚ → Bool
is_busy t draws (g, cap) = ltb (int 0) cap && leb (t * cap) (get_or g (int 0) draws)

-- What its cap leaves above its draw.
unfoldable pub unused : Dict ℕ ℚ → ℕ × ℚ → ℚ
unused draws (g, cap) = max (int 0) (cap - get_or g (int 0) draws)

le_div_of_mul_le : {t draw cap : ℚ} → int 0 < cap → t * cap ≤ draw → t ≤ draw / cap
le_div_of_mul_le {t} {draw} {cap} pos h =
    subst (λ x. x ≤ draw / cap)
      (mul_div_assoc t cap cap ∙ ap (λ x. t * x) (div_self pos) ∙ mul-one t)
      (div_le_div_right cap (le_of_lt pos) h)

-- The code's test by the ratio is the test by the product.
ratio-is_busy :
    (t : ℚ) (draws : Dict ℕ ℚ) (g : ℕ) (cap : ℚ)
    → int 0 < t
    → ltb (ratio (get_or g (int 0) draws) cap) t ≡ not (is_busy t draws (g, cap))
unfolding ratio is_busy
ratio-is_busy t draws g cap tp = elim (le_or_lt cap (int 0)) [
  | inl none ↦ rw (none.holds, tp.holds) refl
  | inr pos ↦ elim (le_or_lt (t * cap) (get_or g (int 0) draws)) [
    | inl hot ↦ rw (pos.holds, hot.holds, (le_div_of_mul_le pos hot).holds) refl
    | inr idle ↦ elim (le_or_lt t (get_or g (int 0) draws / cap)) [
      | inl high ↦ absurd (not-lt_of_le (mul_le_of_le_div pos high) idle)
      | inr low ↦ rw (pos.holds, idle.holds, low.holds) refl
    ]
  ]
]

module _ (t : ℚ) (draws : Dict ℕ ℚ) (tp : int 0 < t) where
  -- What the loop adds to its counts.
  record Added (caps : Dict ℕ ℚ) (c d : Counts) : Type 0 where
    hot : d.hot ≡ c.hot +ₙ length (filter (is_busy t draws) caps)
    idle : d.idle ≡ c.idle +ₙ length (filter (λ e. not (is_busy t draws e)) caps)
    stranded :
        d.stranded
        ≡ c.stranded + sum_map (unused draws) (filter (λ e. not (is_busy t draws e)) caps)

  count_gpu_hot :
      (g : ℕ) (cap : ℚ) (c : Counts)
      → is_busy t draws (g, cap) ≡ true
      → count_gpu t (get_or g (int 0) draws) cap c ≡ record c { hot = suc c.hot }
  unfolding count_gpu
  count_gpu_hot g cap c hot = rw (ratio-is_busy t draws g cap tp, hot) refl

  count_gpu_idle :
      (g : ℕ) (cap : ℚ) (c : Counts)
      → is_busy t draws (g, cap) ≡ false
      → count_gpu t (get_or g (int 0) draws) cap c
        ≡ (record { stranded = c.stranded + unused draws (g, cap); hot = c.hot; idle = suc c.idle })
  unfolding count_gpu unused
  count_gpu_idle g cap c idle = rw (ratio-is_busy t draws g cap tp, idle) refl

  Added-count_gpus : (caps : Dict ℕ ℚ) (c : Counts) → Added caps c (count_gpus t draws caps c)
  unfolding count_gpus filter sum_map
  Added-count_gpus [] c = record {
    hot = omega arith;
    idle = omega arith;
    stranded = sym (add-zero c.stranded);
  }
  Added-count_gpus ((g, cap) ∷ caps) c =
      let next = count_gpu t (get_or g (int 0) draws) cap c in
      let rest = Added-count_gpus caps next in
      elim (Bool-cases (is_busy t draws (g, cap))) [
        | inl hot ↦
            let same = count_gpu_hot g cap c hot in
            record {
              hot = rw hot (rest.hot ∙ rw same (omega arith));
              idle = rw hot (rest.idle ∙ rw same refl);
              stranded = rw hot (rest.stranded ∙ rw same refl);
            }
        | inr idle ↦
            let same = count_gpu_idle g cap c idle in
            record {
              hot = rw idle (rest.hot ∙ rw same refl);
              idle = rw idle (rest.idle ∙ rw same (omega arith));
              stranded = rw idle (rest.stranded ∙ rw same (add_assoc c.stranded _ _));
            }
      ]

-- For a positive threshold, a GPU counts as hot when its cap is positive and its draw at least
-- the threshold times the cap, and as idle otherwise, and the stranded watts are the sum, over
-- the idle GPUs, of what the cap leaves above the draw.
pub domain_stats_counts :
    (draws caps : Dict ℕ ℚ) (t : ℚ)
    → int 0 < t
    → ((domain_stats draws caps t).hot_count ≡ length (filter (is_busy t draws) caps))
      × ((domain_stats draws caps t).idle_count
          ≡ length (filter (λ e. not (is_busy t draws e)) caps))
      × ((domain_stats draws caps t).idle_stranded_w
          ≡ sum_map (unused draws) (filter (λ e. not (is_busy t draws e)) caps))
unfolding domain_stats stats_of
domain_stats_counts draws caps t tp =
    let start : Counts = record { stranded = int 0; hot = 0; idle = 0 } in
    let added = Added-count_gpus t draws tp caps start in
    (added.hot ∙ omega arith, added.idle ∙ omega arith, added.stranded ∙ zero-add _)
