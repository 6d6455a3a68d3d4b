-- ===== src/Checkup/Removal.antt =====
-- On a cluster that deletes what it is asked to, `Teardown` comes to a good end.
use kubevirt_dpdk_checkup.Base.{
  ℕ, suc, ◌≡◌, refl, sym, ap, ◌∙◌, Bool, true, false, none, ◌⊎◌, inl, inr, List, [], ◌∷◌, Bytes,
  bytes_eq, bytes_eq_iff, if◌then◌else◌,
}
use mathlib.Core.List.{Memᴰ}
use kubevirt_dpdk_checkup.Go.Error.{Error, is_not_found}
use kubevirt_dpdk_checkup.Go.Act.{ok}
use kubevirt_dpdk_checkup.Go.Context.{Context}
use kubevirt_dpdk_checkup.Api.{Vmi, ConfigMap}
use kubevirt_dpdk_checkup.World.{Env, Call, History}
use kubevirt_dpdk_checkup.World.Poll.{rounds, Reaches, now, later, poll_rounds-Reaches}
use kubevirt_dpdk_checkup.Checkup.State.{Checkup, State}
use kubevirt_dpdk_checkup.Checkup.Requests.{
  delete_vmi, delete_config_map, get_vmi, deletion_condition, wait_for_vmi_deletion,
}
use kubevirt_dpdk_checkup.Checkup.Frame.{
  view, undeleted, remove, pending_of, checkup_of, wait_for_vmi_deletion-view,
}
use kubevirt_dpdk_checkup.Checkup.Lifecycle.{teardown}

-- The reads of an instance find it gone, after at most `n` reads that still find it.
pub data BecomesAbsent (env : Env) (ctx : Context) (ns name : Bytes) : ℕ → History → Type 0 where
  absent :
      {n : ℕ} {h : History} {e : Error}
      → env.get_vmi h ctx ns name ≡ inl e
      → is_not_found e ≡ true
      → BecomesAbsent env ctx ns name n h
  still_there :
      {n : ℕ} {h : History} {v : Vmi}
      → env.get_vmi h ctx ns name ≡ inr v
      → BecomesAbsent env ctx ns name n (Call.get_vmi ctx ns name ∷ h)
      → BecomesAbsent env ctx ns name (suc n) h

-- A cluster that accepts each deletion, and on which an instance that is not undeleted is gone
-- within `n` reads.
pub record Deletes (env : Env) (n : ℕ) : Type 0 where
  pub instances :
      (h : History) (ctx : Context) (ns name : Bytes) → env.delete_vmi h ctx ns name ≡ none
  pub config_maps :
      (h : History) (ctx : Context) (ns name : Bytes) → env.delete_config_map h ctx ns name ≡ none
  pub absence :
      (h : History) (ctx : Context) (ns name : Bytes)
      → (Memᴰ name (undeleted h) → ⊥)
      → BecomesAbsent env ctx ns name n h

kept_or_head :
    (b : Bool) (m n : Bytes) (rest : List Bytes)
    → Memᴰ m (if b then rest else n ∷ rest)
    → Memᴰ m rest ⊎ ((b ≡ false) × (m ≡ n))
kept_or_head true m n rest h = inl h
kept_or_head false m n rest (Memᴰ.head p) = inr (refl, p)
kept_or_head false m n rest (Memᴰ.tail h) = inl h

remove-absent : (name : Bytes) (ns : List Bytes) → Memᴰ name (remove name ns) → ⊥
unfolding remove
remove-absent name [] h = elim h [ ]
remove-absent name (n ∷ ns) h = elim (kept_or_head (bytes_eq n name) name n (remove name ns) h) [
  | inl m ↦ remove-absent name ns m
  | inr (b, e) ↦ true_ne (sym b ∙ (bytes_eq_iff n name).1 (sym e))
]
  where
    true_ne : false ≡ true → ⊥
    true_ne q = cc

remove-Mem : (name m : Bytes) (ns : List Bytes) → Memᴰ m (remove name ns) → Memᴰ m ns
unfolding remove
remove-Mem name m [] h = elim h [ ]
remove-Mem name m (n ∷ ns) h = elim (kept_or_head (bytes_eq n name) m n (remove name ns) h) [
  | inl k ↦ Memᴰ.tail (remove-Mem name m ns k)
  | inr (b, e) ↦ Memᴰ.head e
]

module _ (env : Env) (ctx : Context) where
  deletion_condition-Reaches :
      {ns name : Bytes} {n : ℕ} {h : History}
      → BecomesAbsent env ctx ns name n h
      → (s : State) → s.history ≡ h
      → s.checkup.namespace ≡ ns
      → (t : State) × Reaches (deletion_condition env ctx name) n s t
  unfolding deletion_condition get_vmi
  deletion_condition-Reaches {name} (absent e r) s q m = (
    record s { history = Call.get_vmi ctx s.checkup.namespace name ∷ s.history },
    now (rw (q, m, e, r)),
  )
  deletion_condition-Reaches {name} (still_there e b) s q m =
      let next =
        deletion_condition-Reaches b
          (record s { history = Call.get_vmi ctx s.checkup.namespace name ∷ s.history }) (rw (q, m))
          m in
      (next.0, later (rw (q, m, e)) next.1)

  wait-absent :
      (n : ℕ) (name : Bytes) (s : State)
      → BecomesAbsent env ctx s.checkup.namespace name n s.history
      → (wait_for_vmi_deletion env (rounds n) ctx name s).0 ≡ ok tt
  unfolding wait_for_vmi_deletion
  wait-absent n name s b =
      let (t, r) = deletion_condition-Reaches b s refl refl in rw (poll_rounds-Reaches r)

module _ (env : Env) (n : ℕ) (deletes : Deletes env n) (ctx : Context) where
  delete_vmi-ok : (name : Bytes) (s : State) → (delete_vmi env ctx name s).0 ≡ ok tt
  unfolding delete_vmi
  delete_vmi-ok name s = rw (deletes.instances s.history ctx s.checkup.namespace name)

  delete_config_map-ok : (m : ConfigMap) (s : State) → (delete_config_map env ctx m s).0 ≡ ok tt
  unfolding delete_config_map
  delete_config_map-ok m s = rw (deletes.config_maps s.history ctx s.checkup.namespace m.name)

  wait-ok :
      (name : Bytes) (s : State)
      → (Memᴰ name (undeleted s.history) → ⊥)
      → (wait_for_vmi_deletion env (rounds n) ctx name s).0 ≡ ok tt
  wait-ok name s m =
      wait-absent env ctx n name s (deletes.absence s.history ctx s.checkup.namespace name m)

  -- On a cluster that accepts each deletion, and on which an instance whose deletion was asked for,
  -- and that was not created again, is gone within `n` reads, `Teardown` with a poll of `n` more
  -- tries succeeds, from any state.
  pub teardown-succeeds : (s : State) → (teardown env (rounds n) ctx s).0 ≡ ok tt
  teardown-succeeds s =
      let c = s.checkup in
      let s₁ = (delete_vmi env ctx c.vmi_under_test.name s).1 in
      let s₂ = (delete_vmi env ctx s₁.checkup.traffic_gen.name s₁).1 in
      let s₃ = (delete_config_map env ctx s₂.checkup.traffic_gen_config_map s₂).1 in
      let s₄ = (delete_config_map env ctx s₃.checkup.vmi_under_test_config_map s₃).1 in
      let s₅ = (wait_for_vmi_deletion env (rounds n) ctx s₄.checkup.vmi_under_test.name s₄).1 in
      let vm = c.vmi_under_test.name in
      let tg = c.traffic_gen.name in
      let pending₄ : undeleted s₄.history ≡ remove tg (remove vm (undeleted s.history)) =
        unfold delete_vmi delete_config_map undeleted in refl in
      let c₄ : s₄.checkup ≡ c = unfold delete_vmi delete_config_map in refl in
      let vm₄ = ap (λ (d : Checkup). d.vmi_under_test.name) c₄ in
      let same₅ : view s₅ ≡ view s₄ =
        wait_for_vmi_deletion-view env (rounds n) ctx s₄.checkup.vmi_under_test.name s₄ in
      let pending₅ : undeleted s₅.history ≡ undeleted s₄.history =
        unfold view in pending_of same₅ in
      let c₅ : s₅.checkup ≡ s₄.checkup = unfold view in checkup_of same₅ in
      let tg₅ = ap (λ (d : Checkup). d.traffic_gen.name) (c₅ ∙ c₄) in
      unfold teardown in
      rw (
        delete_vmi-ok vm s,
        delete_vmi-ok s₁.checkup.traffic_gen.name s₁,
        delete_config_map-ok s₂.checkup.traffic_gen_config_map s₂,
        delete_config_map-ok s₃.checkup.vmi_under_test_config_map s₃,
        wait-ok s₄.checkup.vmi_under_test.name s₄
            (λ m. remove-absent vm _ (remove-Mem tg vm _ (rw (vm₄, pending₄) at m))),
        wait-ok s₅.checkup.traffic_gen.name s₅
            (λ m. remove-absent tg _ (rw (tg₅, pending₅ ∙ pending₄) at m)),
      )
