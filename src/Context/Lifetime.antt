-- ===== src/Context/Lifetime.antt =====
-- How a context goes on after its first node: nodes that join, nodes that leave, and a first node
-- that failed late.
use rmw_connextdds.Prelude.{
  ◌≡◌, ◌<◌, inl, inr, refl, sym, ap, ◌∙◌, arith, ◌+◌, ◌-◌, ◌%◌, ◌^◌, Bool, false,
}
use rmw_connextdds.Names.Text.{Text}
use rmw_connextdds.Ret.{Ret}
use rmw_connextdds.Context.State.{Calls, Context, clean_up}
use rmw_connextdds.Context.Nodes.{initialize_first, initialize_node, finalize_node}
use rmw_connextdds.Context.Lifecycle.{Releases, IsEmpty, clean_up-IsCleaned}
use rmw_connextdds.Context.Startup.{Up, Stage, initialize_first-Stage, initialize_node_zero}

-- A stage that failed holds nothing.
failed :
    (local : Bool) (D : Calls) (R : Releases D) (r : Ret × Context)
    → Stage local (Up local D R) r
    → r.0 ≡ Ret.error
    → IsEmpty r.1 × (r.1.localhost_only ≡ local)
failed local D R r (inl (o, u, l)) e = absurd (let k : Ret.ok ≡ Ret.error = sym o ∙ e in cc)
failed local D R r (inr (o, E, l)) e = (E, l)

-- A context that has a node takes another one of the same kind.
joins :
    (D : Calls) (name namespace : Text) (local : Bool) (t : Context)
    → t.localhost_only ≡ local
    → 0 < t.node_count
    → initialize_node D name namespace local t
      ≡ (Ret.ok, record t { node_count = (t.node_count + 1) % 2 ^ 64 })
unfolding initialize_node
joins D name namespace local t l h = rw (← l) (ground arith)

-- A node that is not the last one leaves.
leaves :
    (D : Calls) (t : Context)
    → 1 < t.node_count
    → t.node_count < 2 ^ 64
    → finalize_node D t ≡ (Ret.ok, record t { node_count = t.node_count - 1 })
unfolding finalize_node
leaves D t h k =
    let e : (t.node_count + (2 ^ 64 - 1)) % 2 ^ 64 ≡ t.node_count - 1 = omega arith in
    rw e (ground arith)

last :
    (D : Calls) (t : Context)
    → t.node_count ≡ 1
    → finalize_node D t ≡ clean_up D false (record t { node_count = 0 })
unfolding finalize_node
last D t h = rw h refl

-- Where a first node fails and leaves a count of one, and DDS released what it was asked to, the
-- next node of the same kind is accepted, whatever the calls of DDS would do, and no entity is held.
pub initialize_node-after_failure :
    (D D' : Calls) (name name' namespace namespace' : Text) (local : Bool) (s : Context)
    → Releases D
    → s.node_count ≡ 0
    → IsEmpty s
    → (initialize_node D name namespace local s).0 ≡ Ret.error
    → (initialize_node D name namespace local s).1.node_count ≡ 1
    → ((initialize_node D' name' namespace' local (initialize_node D name namespace local s).1).0
        ≡ Ret.ok)
      × IsEmpty
          (initialize_node D' name' namespace' local (initialize_node D name namespace local s).1).1
initialize_node-after_failure D D' name name' namespace namespace' local s R z E e n =
    let t = (initialize_node D name namespace local s).1 in
    let S : IsEmpty t × (t.localhost_only ≡ local) =
      rw (initialize_node_zero D name namespace local s z) (
        failed local D R (initialize_first D name namespace local s)
          (initialize_first-Stage local D R name namespace s E)
          (rw (initialize_node_zero D name namespace local s z) at e)) in
    rw (joins D' name' namespace' local t S.1 (omega (arith, n)))
      (refl, record { participant = S.0.participant; dds_pub = S.0.dds_pub; dds_sub = S.0.dds_sub })

-- A node that joins a context that has nodes, of the same kind, and then leaves it changes nothing,
-- below the largest count.
pub finalize_node-initialize_node :
    (D D' : Calls) (name namespace : Text) (s : Context)
    → 0 < s.node_count
    → s.node_count + 1 < 2 ^ 64
    → ((initialize_node D name namespace s.localhost_only s).0 ≡ Ret.ok)
      × (finalize_node D' (initialize_node D name namespace s.localhost_only s).1 ≡ (Ret.ok, s))
finalize_node-initialize_node D D' name namespace s h k =
    let e : (s.node_count + 1) % 2 ^ 64 ≡ s.node_count + 1 = omega arith in
    rw (joins D name namespace s.localhost_only s refl h, e)
      (
        refl,
        leaves D' (record s { node_count = s.node_count + 1 }) (omega arith) k
            ∙ ap (λ n. (Ret.ok, record s { node_count = n })) (omega arith),
      )

-- The last node that leaves releases every entity, where DDS releases what it is asked to, and the
-- count is zero.
pub finalize_node-last :
    (D : Calls) (s : Context)
    → Releases D
    → s.node_count ≡ 1
    → ((finalize_node D s).0 ≡ Ret.ok)
      × IsEmpty (finalize_node D s).1
      × ((finalize_node D s).1.node_count ≡ 0)
finalize_node-last D s R n =
    let X = clean_up-IsCleaned D R false (record s { node_count = 0 }) in
    rw (last D s n) (X.succeeds, X.empty, X.node_count)
