-- ===== src/WaitSet/Claim.antt =====
-- What the steps of attaching one condition do, when it is not attached to another wait set.
use rmw_connextdds.Prelude.{
  ℕ, ◌≡◌, ◌⊎◌, inl, inr, refl, ap, ◌∙◌, Bool, true, false, none, some, ◌==◌, if◌then◌else◌, update,
  update_same, ==_iff, Bool-cases,
}
use rmw_connextdds.Ret.{Ret, is_ok, Sat, Sat-then, ◌then_ok◌}
use rmw_connextdds.WaitSet.Events.{DdsStatusKind, DdsStatus}
use rmw_connextdds.WaitSet.Conditions
use rmw_connextdds.WaitSet.Conditions.{
  Dds, DdsCondition, Condition, World, done, set_attached_waitset, dds_attach, attach_to,
  attach_data, reset_statuses, enable_statuses,
}
use rmw_connextdds.WaitSet.Attach.{Heap, claim, attach_reader}

-- No wait set but `ws` has the condition `c`.
abbrev pub Mine : ℕ → (ℕ → Condition) → ℕ → Type 0
Mine ws f c = ((f c).attached_waitset ≡ none) ⊎ ((f c).attached_waitset ≡ some ws)

-- Conditions are at most attached to `ws`.
abbrev pub Grows : ℕ → (ℕ → Condition) → (ℕ → Condition) → Type 0
Grows ws f g =
    (k : ℕ) → ((g k).attached_waitset ≡ (f k).attached_waitset) ⊎ ((g k).attached_waitset ≡ some ws)

pub Grows-trans : (f g h : ℕ → Condition) (ws : ℕ) → Grows ws f g → Grows ws g h → Grows ws f h
Grows-trans f g h ws a b k = elim (b k) [
  | inr s ↦ inr s
  | inl e ↦ elim (a k) [ inl d ↦ inl (e ∙ d) | inr s ↦ inr (e ∙ s) ]
]

pub Mine-Grows : (f g : ℕ → Condition) (ws c : ℕ) → Grows ws f g → Mine ws f c → Mine ws g c
Mine-Grows f g ws c G m = elim (G c) [
  | inr s ↦ inr s
  | inl e ↦ elim m [ inl n ↦ inl (e ∙ n) | inr s ↦ inr (e ∙ s) ]
]

pub attached-Grows :
    (f g : ℕ → Condition) (ws c : ℕ)
    → Grows ws f g
    → (f c).attached_waitset ≡ some ws
    → (g c).attached_waitset ≡ some ws
attached-Grows f g ws c G h = elim (G c) [ inr s ↦ s | inl e ↦ e ∙ h ]

-- Setting a condition's attached_waitset to `ws`, or leaving it.
Grows-update :
    (ws c : ℕ) (f : ℕ → Condition) (k : Condition)
    → (k.attached_waitset ≡ (f c).attached_waitset) ⊎ (k.attached_waitset ≡ some ws)
    → Grows ws f (update f c k)
Grows-update ws c f k h i = elim (Bool-cases (c == i)) [
  | inr e ↦ inl (rw e refl)
  | inl e ↦ rw e (elim h [
    | inr s ↦ inr s
    | inl d ↦ inl (d ∙ ap (λ j. (f j).attached_waitset) ((==_iff c i).0 e))
  ])
]

module _ (D : Dds) (ws : ℕ) where
  -- The wait sets are as they were, and conditions at most attached to `ws`.
  abbrev pub Grown : World D → World D → Type 0
  Grown u v = (v.waitsets ≡ u.waitsets) × Grows ws u.conditions v.conditions

  pub Grown-refl : (u : World D) → Grown u u
  Grown-refl u = (refl, λ k. inl refl)

  Grown-trans : (u v w : World D) → Grown u v → Grown v w → Grown u w
  Grown-trans u v w (a, b) (c, d) =
      (c ∙ a, Grows-trans u.conditions v.conditions w.conditions ws b d)

  -- ... and `c` is attached to it.
  abbrev pub Joined : ℕ → World D → World D → Type 0
  Joined c u v = Grown u v × ((v.conditions c).attached_waitset ≡ some ws)

  claim-Mine :
      (have : Bool) (H : Heap) (others : World D → World D) (c : ℕ) (v : World D)
      → Mine ws v.conditions c
      → claim D have H others ws c v
        ≡ (if (v.conditions c).deleted then (Ret.error, v) else (Ret.ok, v))
  unfolding claim
  claim-Mine have H others c v (inl e) = rw (e, claim) refl
  claim-Mine have H others c v (inr e) = rw (e, claim, (==_iff ws ws).1 refl) refl

  pub refused :
      (b : Bool) (u v : World D)
      → Grown u v
      → Sat (Grown u) (if b then (Ret.error, v) else (Ret.ok, v))
  refused true u v g o = g
  refused false u v g o = g

  pub claim-Sat :
      (have : Bool) (H : Heap) (others : World D → World D) (c : ℕ) (u v : World D)
      → Mine ws v.conditions c
      → Grown u v
      → Sat (Grown u) (claim D have H others ws c v)
  claim-Sat have H others c u v m g =
      rw (claim-Mine have H others c v m) (refused (v.conditions c).deleted u v g)

  pub reset_statuses-Sat :
      (c : ℕ) (u v : World D) → Grown u v → Sat (Grown u) (reset_statuses D c v)
  unfolding reset_statuses
  reset_statuses-Sat c u v g o = g

  pub enable_statuses-Sat :
      (c : ℕ) (kind : DdsStatusKind) (u v : World D)
      → Grown u v
      → Sat (Grown u) (enable_statuses D c kind v)
  unfolding enable_statuses
  enable_statuses-Sat c kind u v g o = g

  -- What a call of DDS to attach a condition is followed by, when it succeeds.
  joined :
      (b : Bool) (st : D.State) (c : ℕ) (k : Condition) (u v : World D)
      → Grown u v
      → k.attached_waitset ≡ some ws
      → Sat (Joined c u) (
          let rc = (if b then Ret.ok else Ret.error) in
          if is_ok rc
          then (rc, record v { conditions = update v.conditions c k; dds = st })
          else (rc, record v { dds = st }))
  joined true st c k u v g e o = (
    Grown-trans u v (record v { conditions = update v.conditions c k; dds = st }) g
        (refl, Grows-update ws c v.conditions k (inr e)),
    rw (update_same v.conditions c k) e,
  )
  joined false st c k u v g e o = absurd (cc)

  attach_to-Sat : (c : ℕ) (u v : World D) → Grown u v → Sat (Joined c u) (attach_to D c ws v)
  unfolding attach_to dds_attach
  attach_to-Sat c u v g = joined _ _ c _ u v g refl

  pub attach-Sat :
      (c : ℕ) (u v : World D)
      → Mine ws v.conditions c
      → Grown u v
      → Sat (Joined c u) (Conditions.attach D c ws v)
  unfolding Conditions.attach
  attach-Sat c u v m g = elim (Bool-cases (v.conditions c).deleted) [
    | inl d ↦ rw (d, Conditions.attach) (λ o. absurd (cc))
    | inr d ↦ elim m [
      | inl e ↦ rw (d, e, Conditions.attach) (attach_to-Sat c u v g)
      | inr e ↦ rw (d, e, Conditions.attach, (==_iff ws ws).1 refl) (λ o. (g, e))
    ]
  ]

  attach_data-Sat : (c : ℕ) (u v : World D) → Joined c u v → Sat (Joined c u) (attach_data D c v)
  unfolding attach_data dds_attach
  attach_data-Sat c u v (g, h) = rw (h, attach_data) (joined _ _ c _ u v g h)

  -- Attaching the condition of a reader that no other wait set has.
  pub attach_reader-Sat :
      (have : Bool) (H : Heap) (others : World D → World D) (c : ℕ) (u : World D)
      → Mine ws u.conditions c
      → Sat (Joined c u) (attach_reader D have H others ws c u)
  unfolding attach_reader
  attach_reader-Sat have H others c u m =
      let G = Grown u in
      let J = Joined c u in
      let enable = enable_statuses D c (DdsStatusKind.status DdsStatus.data_available) in
      let r1 = claim D have H others ws c u in
      let r2 = r1 then_ok reset_statuses D c in
      let r3 = r2 then_ok enable in
      let r4 = r3 then_ok Conditions.attach D c ws in
      let s2 =
        Sat-then G G r1 (reset_statuses D c) (claim-Sat have H others c u u m (Grown-refl u))
          (λ v g. reset_statuses-Sat c u v g) in
      let s3 = Sat-then G G r2 enable s2 (λ v g. enable_statuses-Sat c _ u v g) in
      let s4 =
        Sat-then G J r3 (Conditions.attach D c ws) s3
          (λ v g. attach-Sat c u v (Mine-Grows u.conditions v.conditions ws c g.1 m) g) in
      Sat-then J J r4 (attach_data D c) s4 (λ v j. attach_data-Sat c u v j)
