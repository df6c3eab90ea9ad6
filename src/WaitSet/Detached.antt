-- ===== src/WaitSet/Detached.antt =====
-- What detaching a wait set does to its lists and to the conditions.
use rmw_connextdds.Prelude.{
  ℕ, ◌≡◌, ◌⊎◌, inl, inr, refl, ap, ◌∙◌, Bool, true, false, not, ◌||◌, List, [], ◌∷◌, map, none,
  ◌==◌, if◌then◌else◌, update_same, ==_iff, arith, Bool-cases, Option-cases, All, All-append,
  All-mono,
}
use rmw_connextdds.Ret.{Ret, is_ok}
use rmw_connextdds.WaitSet.Conditions
use rmw_connextdds.WaitSet.Conditions.{
  Dds, Condition, Elements, WaitSet, World, set_attached_waitset, dds_detach, done,
}
use rmw_connextdds.WaitSet.Attach
use rmw_connextdds.WaitSet.Attach.{
  Heap, detach_each, attached_conditions, set_attached, client_condition, service_condition,
  event_condition, cached,
}

-- From `w` to `w'`, conditions are at most detached.
pub record Released (w w' : ℕ → Condition) : Type 0 where
  pub at_most :
      (k : ℕ)
      → ((w' k).attached_waitset ≡ (w k).attached_waitset) ⊎ ((w' k).attached_waitset ≡ none)
  pub data_kept : (k : ℕ) → (w' k).attached_waitset_dcond ≡ (w k).attached_waitset_dcond
  pub deleted_kept : (k : ℕ) → (w' k).deleted ≡ (w k).deleted

freed :
    {w w' : ℕ → Condition} (k : ℕ)
    → Released w w'
    → (w k).attached_waitset ≡ none
    → (w' k).attached_waitset ≡ none
freed k R h = elim (R.at_most k) [ inl e ↦ e ∙ h | inr n ↦ n ]

Released-refl : (w : ℕ → Condition) → Released w w
Released-refl w = record {
  at_most = λ k. inl refl;
  data_kept = λ k. refl;
  deleted_kept = λ k. refl;
}

Released-trans : {u v w : ℕ → Condition} → Released u v → Released v w → Released u w
Released-trans a b = record {
  at_most = λ k. elim (b.at_most k) [
    | inr n ↦ inr n
    | inl e ↦ elim (a.at_most k) [ inl d ↦ inl (e ∙ d) | inr n ↦ inr (e ∙ n) ]
  ];
  data_kept = λ k. b.data_kept k ∙ a.data_kept k;
  deleted_kept = λ k. b.deleted_kept k ∙ a.deleted_kept k;
}

module _ (D : Dds) where
  -- What the detach of one condition does.
  record One (c : ℕ) (w : World D) (r : Ret × World D) : Type 0 where
    released : Released w.conditions r.1.conditions
    same : r.1.waitsets ≡ w.waitsets
    none_left : is_ok r.0 ≡ true → (r.1.conditions c).attached_waitset ≡ none

  -- A condition whose attached_waitset is set to null.
  detached-One :
      (c : ℕ) (w : World D) (st : D.State)
      → One c w (Ret.ok, set_attached_waitset D c none (record w { dds = st }))
  detached-One c w st = record {
    released = record {
      at_most =
          λ k. elim (Bool-cases (c == k)) [ inl e ↦ inr (rw e refl) | inr e ↦ inl (rw e refl) ];
      data_kept = λ k. elim (Bool-cases (c == k)) [
        | inl e ↦ rw e (ap (λ i. (w.conditions i).attached_waitset_dcond) ((==_iff c k).0 e))
        | inr e ↦ rw e refl
      ];
      deleted_kept = λ k. elim (Bool-cases (c == k)) [
        | inl e ↦ rw e (ap (λ i. (w.conditions i).deleted) ((==_iff c k).0 e))
        | inr e ↦ rw e refl
      ];
    };
    same = refl;
    none_left = λ h.
        rw (update_same w.conditions c (record (w.conditions c) { attached_waitset = none })) refl;
  }

  unchanged-One : (c : ℕ) (w : World D) (st : D.State) → One c w (Ret.error, record w { dds = st })
  unchanged-One c w st = record {
    released = Released-refl _;
    same = refl;
    none_left = λ h. absurd (cc);
  }

  detach-One : (c : ℕ) (w : World D) → One c w (Conditions.detach D c w)
  unfolding Conditions.detach dds_detach
  detach-One c w = elim (Option-cases (w.conditions c).attached_waitset) [
    | inl e ↦
        rw (e, Conditions.detach)
          (record { released = Released-refl _; same = refl; none_left = λ h. e })
    | inr (a, e) ↦
        rw (e, Conditions.detach)
          (elim (Bool-cases (
            Conditions.is_detached D
              (D.detach_condition a (Conditions.DdsCondition.of c) w.dds).0)) [
                | inl y ↦ rw (y, done) (detached-One c w _)
                | inr n ↦ rw (n, done) (unchanged-One c w _)
              ])
  ]

  -- What the detach of several conditions does.
  record Each (cs : List ℕ) (failed : Bool) (w : World D) (r : Bool × World D) : Type 0 where
    released : Released w.conditions r.1.conditions
    same : r.1.waitsets ≡ w.waitsets
    kept : r.0 ≡ false → failed ≡ false
    none_left : r.0 ≡ false → All (λ c. (r.1.conditions c).attached_waitset ≡ none) cs

  detach_each-Each :
      (have : Bool) (H : Heap) (cs : List ℕ) (failed : Bool) (w : World D)
      → Each cs failed w (detach_each D have H cs (failed, w))
  detach_each-Each have H [] failed w = record {
    released = Released-refl _;
    same = refl;
    kept = λ h. h;
    none_left = λ h. tt;
  }
  detach_each-Each have H (c ∷ cs) failed w =
      let O = detach-One c w in
      let E =
        detach_each-Each have H cs (failed || not (is_ok (Conditions.detach D c w).0))
          (Conditions.detach D c w).1 in
      record {
        released = Released-trans O.released E.released;
        same = E.same ∙ O.same;
        kept = λ h. let k = E.kept h in ground (arith, k);
        none_left = λ h.
            let k = E.kept h in
            (freed c E.released (O.none_left (ground (arith, k))), E.none_left h);
      }

abbrev pub no_elements : Elements
no_elements = record { subscribers = []; conditions = []; clients = []; services = []; events = [] }

-- A wait set is emptied: its lists are, whatever DDS returns, and the conditions are at most detached;
-- when the result is good, all those that were attached are detached.
pub record Emptied (D : Dds) (have : Bool) (H : Heap) (ws : ℕ) (w : World D) (r : Ret × World D)
    : Type 0 where
  pub elements : (r.1.waitsets ws).attached ≡ no_elements
  pub no_cache : (r.1.waitsets ws).cache ≡ []
  pub same_state : (r.1.waitsets ws).state ≡ (w.waitsets ws).state
  pub released : Released w.conditions r.1.conditions
  pub all_detached :
      r.0 ≡ Ret.ok
      → All
          (λ c. (r.1.conditions c).attached_waitset ≡ none)
          (attached_conditions D have H (w.waitsets ws))

module _ (D : Dds) (have : Bool) (H : Heap) where
  -- The lists of a wait set, changed and read again.
  set_attached-state :
      (ws : ℕ) (els : Elements) (w : World D)
      → ((set_attached D have H ws els w).waitsets ws).state ≡ (w.waitsets ws).state
  set_attached-state ws els w =
      rw (update_same w.waitsets ws (record (w.waitsets ws) { attached = els })) refl

  phase-state :
      (ws : ℕ) (els : Elements) (cs : List ℕ) (failed : Bool) (w : World D) (r : Bool × World D)
      → Each D cs failed w r
      → ((set_attached D have H ws els r.1).waitsets ws).state ≡ (w.waitsets ws).state
  phase-state ws els cs failed w r E = set_attached-state ws els r.1 ∙ ap (λ f. (f ws).state) E.same

  not_failed : (b : Bool) → (if b then Ret.error else Ret.ok) ≡ Ret.ok → b ≡ false
  not_failed true h = cc
  not_failed false h = refl

  freed-All :
      (cs : List ℕ) {u v : ℕ → Condition}
      → Released u v
      → All (λ c. (u c).attached_waitset ≡ none) cs
      → All (λ c. (v c).attached_waitset ≡ none) cs
  freed-All cs R a = All-mono _ _ (λ c. freed c R) cs a

  -- Detaching empties all five lists of the wait set, whatever DDS returns, and changes no condition
  -- but by detaching it; when the result is good, every condition that was attached is detached.
  pub detach-Emptied : (ws : ℕ) (w : World D) → Emptied D have H ws w (Attach.detach D have H ws w)
  unfolding Attach.detach
  detach-Emptied ws w =
      let s = w.waitsets ws in
      let els = s.attached in
      let r1 = detach_each D have H (map H.subscriber_condition els.subscribers) (false, w) in
      let E1 = detach_each-Each D have H (map H.subscriber_condition els.subscribers) false w in
      let v1 = set_attached D have H ws (record els { subscribers = [] }) r1.1 in
      let r2 = detach_each D have H els.conditions (r1.0, v1) in
      let E2 = detach_each-Each D have H els.conditions r1.0 v1 in
      let v2 = set_attached D have H ws (record els { subscribers = []; conditions = [] }) r2.1 in
      let cl = map (client_condition D have H) els.clients in
      let r3 = detach_each D have H cl (r2.0, v2) in
      let E3 = detach_each-Each D have H cl r2.0 v2 in
      let v3 =
        set_attached D have H ws (record els { subscribers = []; conditions = []; clients = [] })
          r3.1 in
      let sv = map (service_condition D have H) els.services in
      let r4 = detach_each D have H sv (r3.0, v3) in
      let E4 = detach_each-Each D have H sv r3.0 v3 in
      let v4 =
        set_attached D have H ws
          (record els { subscribers = []; conditions = []; clients = []; services = [] }) r4.1 in
      let ev = map (λ e. event_condition D have H (cached D have H s.cache e)) els.events in
      let r5 = detach_each D have H ev (r4.0, v4) in
      let E5 = detach_each-Each D have H ev r4.0 v4 in
      record {
        elements = ground arith;
        no_cache = ground arith;
        same_state =
            ap (λ x. x.state) (update_same r5.1.waitsets ws _)
            ∙ ap (λ f. (f ws).state) E5.same
            ∙ phase-state ws _ sv r3.0 v3 r4 E4
            ∙ phase-state ws _ cl r2.0 v2 r3 E3
            ∙ phase-state ws _ els.conditions r1.0 v1 r2 E2
            ∙ phase-state ws _ (map H.subscriber_condition els.subscribers) false w r1 E1;
        released = Released-trans E1.released (
            Released-trans E2.released
              (Released-trans E3.released (Released-trans E4.released E5.released)));
        all_detached = λ o.
            let h5 = not_failed r5.0 o in
            let h4 = E5.kept h5 in
            let h3 = E4.kept h4 in
            let h2 = E3.kept h3 in
            let h1 = E2.kept h2 in
            let R4 = E5.released in
            let R3 = Released-trans E4.released R4 in
            let R2 = Released-trans E3.released R3 in
            let R1 = Released-trans E2.released R2 in
            All-append _ _ ev
              (All-append _ _ sv
                (All-append _ _ cl
                  (All-append _ (map H.subscriber_condition els.subscribers) els.conditions
                    (freed-All _ R1 (E1.none_left h1)) (freed-All _ R2 (E2.none_left h2)))
                  (freed-All _ R3 (E3.none_left h3)))
                (freed-All _ R4 (E4.none_left h4)))
              (E5.none_left h5);
      }
