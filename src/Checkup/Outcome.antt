-- ===== src/Checkup/Outcome.antt =====
-- What `Setup` and its parts promise, and how one part's promise makes another's.
use kubevirt_dpdk_checkup.Base.{◌≡◌, ◌≢◌, refl, ◌∙◌, List, ◌∷◌, Bytes, All}
use mathlib.Core.Path.{subst}
use kubevirt_dpdk_checkup.Go.Error.{Error}
use kubevirt_dpdk_checkup.Go.Act.{Result, ok, err, panic}
use kubevirt_dpdk_checkup.Checkup.State.{Checkup, State}
use kubevirt_dpdk_checkup.Checkup.Frame.{undeleted, remove, remove_fresh, remove_cons}
use kubevirt_dpdk_checkup.Checkup.Readiness.{IsReady}
use kubevirt_dpdk_checkup.Checkup.Waits.{Waited}

-- Neither of the checkup's names is taken by an instance of the history, and they differ.
pub record Fresh (s : State) : Type 0 where
  pub vm : All (λ n. n ≢ s.checkup.vmi_under_test.name) (undeleted s.history)
  pub tg : All (λ n. n ≢ s.checkup.traffic_gen.name) (undeleted s.history)
  pub different : s.checkup.vmi_under_test.name ≢ s.checkup.traffic_gen.name

-- How a part of `Setup` ends: it does not panic; if it succeeds, both instances are ready and
-- `created` are undeleted; if it fails, `cleaned` are.
pub record Outcome (c : Checkup) (created cleaned : List Bytes) (p : Result (Unit {0}) × State)
    : Type 0 where
  pub returns : p.0 ≢ panic
  pub vm : p.1.checkup.vmi_under_test.name ≡ c.vmi_under_test.name
  pub tg : p.1.checkup.traffic_gen.name ≡ c.traffic_gen.name
  pub on_ok :
      p.0 ≡ ok tt
      → (undeleted p.1.history ≡ created)
        × IsReady c.vmi_under_test.name p.1.checkup.vmi_under_test
        × IsReady c.traffic_gen.name p.1.checkup.traffic_gen
  pub on_err : (e : Error) → p.0 ≡ err e → undeleted p.1.history ≡ cleaned

pub Outcome-of_Waited :
    (s : State) (p : Result (Unit {0}) × State)
    → Waited s p
    → Outcome s.checkup (undeleted s.history) (undeleted s.history) p
Outcome-of_Waited s p w = record {
  returns = w.returns;
  vm = w.kept.vm;
  tg = w.kept.tg;
  on_ok = λ e. (w.kept.pending, (w.ready e).0, (w.ready e).1);
  on_err = λ x e. w.kept.pending;
}

pub Outcome-with :
    {c : Checkup} {created cleaned created' cleaned' : List Bytes} {p : Result (Unit {0}) × State}
    → created ≡ created'
    → cleaned ≡ cleaned'
    → Outcome c created cleaned p
    → Outcome c created' cleaned' p
Outcome-with e d o = record {
  returns = o.returns;
  vm = o.vm;
  tg = o.tg;
  on_ok = λ q. ((o.on_ok q).0 ∙ e, (o.on_ok q).1, (o.on_ok q).2);
  on_err = λ x q. o.on_err x q ∙ d;
}

pub Outcome-failed :
    (c : Checkup) (created cleaned : List Bytes) {x : Error} {t : State}
    → t.checkup.vmi_under_test.name ≡ c.vmi_under_test.name
    → t.checkup.traffic_gen.name ≡ c.traffic_gen.name
    → undeleted t.history ≡ cleaned
    → Outcome c created cleaned (err x, t)
Outcome-failed c created cleaned v g h = record {
  returns = λ q. cc;
  vm = v;
  tg = g;
  on_ok = λ q. cc;
  on_err = λ y q. h;
}

-- What was created and removed again was not there before.
pub remove_created :
    (name : Bytes) (ns ms : List Bytes)
    → ns ≡ name ∷ ms
    → All (λ n. n ≢ name) ms
    → remove name ns ≡ ms
remove_created name ns ms e fresh = rw e (remove_cons name ms ∙ remove_fresh name ms fresh)

pub Fresh-same :
    (s t : State)
    → t.checkup ≡ s.checkup
    → undeleted t.history ≡ undeleted s.history
    → Fresh s
    → Fresh t
Fresh-same s t c h fresh = record {
  vm = rw (c, h) fresh.vm;
  tg = rw (c, h) fresh.tg;
  different = rw c fresh.different;
}

pub Outcome-at :
    {c d : Checkup} {created cleaned cleaned' : List Bytes} {p : Result (Unit {0}) × State}
    → c ≡ d
    → cleaned ≡ cleaned'
    → Outcome c created cleaned p
    → Outcome d created cleaned' p
Outcome-at {created} {cleaned'} {p} e h o =
    subst (λ (c : Checkup). Outcome c created cleaned' p) e (Outcome-with refl h o)
