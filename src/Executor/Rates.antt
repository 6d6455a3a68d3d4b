-- ===== src/Executor/Rates.antt =====
-- What the watch over the traffic reads, `monitorDropRates`, and the rate that it returns.
use kubevirt_dpdk_checkup.Base.{
  ℕ, ◌≡◌, ◌≢◌, refl, sym, ap, ◌∙◌, Bool, true, false, Bool-cases, ◌⊎◌, inl, inr, List, [], ◌∷◌, All,
  ℤ,
}
use mathlib.Core.List.{Memᴰ}
use kubevirt_dpdk_checkup.Go.Error.{Error, wait_timeout, is_wait_timeout}
use kubevirt_dpdk_checkup.Go.Act.{Result, ok, err, panic}
use kubevirt_dpdk_checkup.Go.Context.{Context, with_timeout}
use kubevirt_dpdk_checkup.World.{Env, History}
use kubevirt_dpdk_checkup.World.Poll.{Poller, PollRun, done, failed, panicked, expired, again}
use kubevirt_dpdk_checkup.Trex.Types.{GlobalStats}
use kubevirt_dpdk_checkup.Trex.Client.{Client, Decoder}
use kubevirt_dpdk_checkup.Trex.Client.Stats.{get_global_stats}
use kubevirt_dpdk_checkup.Executor.{
  Executor, Floats, Monitoring, monitor_condition, monitor_drop_rates, record_drop, new_max,
  monitored,
}

-- The comparison of numbers of which none is a NaN, which JSON cannot write.
pub record IsOrder {F : Type 0} (floats : Floats F) : Type 0 where
  pub asymmetric : (a b : F) → floats.greater a b ≡ true → floats.greater b a ≡ false
  pub transitive :
      (a b c : F)
      → floats.greater a b ≡ false
      → floats.greater b c ≡ false
      → floats.greater a c ≡ false

-- A rate is the largest of a first one and of others.
pub record IsLargest {F : Type 0} (floats : Floats F) (first : F) (rates : List F) (rate : F)
    : Type 0 where
  pub member : (rate ≡ first) ⊎ Memᴰ rate rates
  pub over_first : floats.greater first rate ≡ false
  pub over_rates : All (λ r. floats.greater r rate ≡ false) rates

-- The reads of the global statistics from a history on, and their rates. The last one may fail with
-- the error that a poll ends with when the time is over.
pub data Sampled {F : Type 0} (env : Env) (decoder : Decoder F) (c : Client)
    : History → List F → History → Type 0 where
  last :
      {h t : History} (stats : GlobalStats F)
      → get_global_stats env decoder c h ≡ (ok stats, t)
      → Sampled env decoder c h (stats.result.m_rx_drop_bps ∷ []) t
  stopped :
      {h t : History} (e : Error)
      → get_global_stats env decoder c h ≡ (err e, t)
      → is_wait_timeout e ≡ true
      → Sampled env decoder c h [] t
  next :
      {h t u : History} {rates : List F} (stats : GlobalStats F)
      → get_global_stats env decoder c h ≡ (ok stats, t)
      → Sampled env decoder c t rates u
      → Sampled env decoder c h (stats.result.m_rx_drop_bps ∷ rates) u

module _ {F : Type 0} (floats : Floats F) (o : IsOrder floats) where
  irreflexive : (a : F) → floats.greater a a ≡ false
  irreflexive a = elim (Bool-cases (floats.greater a a)) [ inl e ↦ o.asymmetric a a e | inr e ↦ e ]

  first-IsLargest : (m : F) → IsLargest floats m [] m
  first-IsLargest m = record { member = inl refl; over_first = irreflexive m; over_rates = tt }

  -- The comparison with a rate that is read.
  new_max-IsLargest :
      (d m : F) (rates : List F) (x : F)
      → IsLargest floats (new_max floats d m) rates x
      → IsLargest floats m (d ∷ rates) x
  new_max-IsLargest d m rates x l = elim (Bool-cases (floats.greater d m)) [
    | inl e ↦
        let k = rw e at l in
        record {
          member = inr (elim k.member [ inl q ↦ Memᴰ.head q | inr q ↦ Memᴰ.tail q ]);
          over_first = o.transitive m d x (o.asymmetric d m e) k.over_first;
          over_rates = (k.over_first, k.over_rates);
        }
    | inr e ↦
        let k = rw e at l in
        record {
          member = elim k.member [ inl q ↦ inl q | inr q ↦ inr (Memᴰ.tail q) ];
          over_first = k.over_first;
          over_rates = (o.transitive d m x e k.over_first, k.over_rates);
        }
  ]

  new_max-over_zero :
      (d m : F)
      → floats.greater floats.zero m ≡ false
      → floats.greater floats.zero (new_max floats d m) ≡ false
  new_max-over_zero d m h = elim (Bool-cases (floats.greater d m)) [
    | inl e ↦ rw e (o.transitive floats.zero m d h (o.asymmetric d m e))
    | inr e ↦ rw e h
  ]

  read-IsLargest :
      (d m t x : F) (rates : List F)
      → t ≡ new_max floats d m
      → IsLargest floats t rates x
      → IsLargest floats m (d ∷ rates) x
  read-IsLargest d m t x rates e l = new_max-IsLargest d m rates x (rw e at l)

  last-IsLargest : (d m t x : F) → t ≡ new_max floats d m → x ≡ t → IsLargest floats m (d ∷ []) x
  last-IsLargest d m t x e q = read-IsLargest d m t x [] e (rw q (first-IsLargest t))

  unread-IsLargest :
      (m t x : F)
      → floats.greater floats.zero m ≡ false
      → t ≡ new_max floats floats.zero m
      → x ≡ t
      → IsLargest floats m [] x
  unread-IsLargest m t x z e q = rw (q ∙ e, z) (first-IsLargest m)

-- What a step of the watch that says `false` has read.
record_drop-false :
    {F : Type 0} (floats : Floats F) (r : Result (GlobalStats F)) (m : F) (h : History)
    (t : Monitoring F)
    → record_drop floats r m h ≡ (ok false, t)
    → (stats : GlobalStats F) × (r ≡ ok stats)
      × (t.max_drop_rate ≡ new_max floats stats.result.m_rx_drop_bps m)
      × (t.history ≡ h)
record_drop-false floats (ok stats) m h t k = (
  stats,
  refl,
  ap (λ (p : Result Bool × Monitoring _). p.1.max_drop_rate) (sym k),
  ap (λ (p : Result Bool × Monitoring _). p.1.history) (sym k),
)
record_drop-false floats (err e) m h t k = cc
record_drop-false floats panic m h t k = cc

record_drop-true :
    {F : Type 0} (floats : Floats F) (r : Result (GlobalStats F)) (m : F) (h : History)
    (t : Monitoring F)
    → record_drop floats r m h ≢ (ok true, t)
record_drop-true floats (ok stats) m h t k = cc
record_drop-true floats (err e) m h t k = cc
record_drop-true floats panic m h t k = cc

record_drop-failed :
    {F : Type 0} (floats : Floats F) (r : Result (GlobalStats F)) (m : F) (h : History)
    (t : Monitoring F) (e : Error)
    → record_drop floats r m h ≡ (err e, t)
    → (r ≡ err e) × (t.max_drop_rate ≡ new_max floats floats.zero m) × (t.history ≡ h)
record_drop-failed floats (ok stats) m h t e k = cc
record_drop-failed floats (err x) m h t e k = (
  ap err (err-injective (ap (λ (p : Result Bool × Monitoring _). p.0) k)),
  ap (λ (p : Result Bool × Monitoring _). p.1.max_drop_rate) (sym k),
  ap (λ (p : Result Bool × Monitoring _). p.1.history) (sym k),
)
  where
    err-injective : {x y : Error} → ◌≡◌ {A = Result Bool} (err x) (err y) → x ≡ y
    err-injective q = cc
record_drop-failed floats panic m h t e k = cc

-- A poll that ends with an error has a result only if the time is over.
monitored-err :
    {F : Type 0} (e : Error) (m x : F)
    → monitored (err e) m ≡ ok x
    → (is_wait_timeout e ≡ true) × (x ≡ m)
monitored-err e m x h = elim (Bool-cases (is_wait_timeout e)) [
  | inl t ↦ (t, over (rw t at h))
  | inr f ↦ absurd (refused (rw f at h))
]
  where
    over : ◌≡◌ {A = Result _} (ok m) (ok x) → x ≡ m
    over q = cc

    refused : {e : Error} → ◌≡◌ {A = Result _} (err e) (ok x) → ⊥
    refused q = cc

module _ {F : Type 0} (env : Env) (poller : Poller) (decoder : Decoder F) (floats : Floats F)
    (seconds : ℤ → ℕ) (o : IsOrder floats) (c : Client) where
  -- The rates that a watch reads, and what is left at its end.
  Watched : Monitoring F → F → History → Type 0
  Watched w x end =
      (rates : List F) × Sampled env decoder c w.history rates end
      × IsLargest floats w.max_drop_rate rates x

  PollRun-Watched :
      {w v : Monitoring F} {r : Result (Unit {0})}
      → PollRun (monitor_condition env poller decoder floats seconds c) w r v
      → (x : F) → monitored r v.max_drop_rate ≡ ok x
      → floats.greater floats.zero w.max_drop_rate ≡ false
      → Watched w x v.history
  unfolding monitor_condition Watched
  PollRun-Watched (done e) x h z = absurd (record_drop-true floats _ _ _ _ e)
  PollRun-Watched (panicked e) x h z = cc
  PollRun-Watched {w} {v} (failed {e = f} e) x h z =
      let (q, m, k) = record_drop-failed floats _ _ _ _ f e in
      let (over, same) = monitored-err f v.max_drop_rate x h in
      (
        [],
        stopped f (λ i. (q i, sym k i)) over,
        unread-IsLargest floats o w.max_drop_rate v.max_drop_rate x z m same,
      )
  PollRun-Watched {w} {v} (expired e) x h z =
      let (stats, q, m, k) = record_drop-false floats _ _ _ _ e in
      (
        stats.result.m_rx_drop_bps ∷ [],
        last stats (λ i. (q i, sym k i)),
        last-IsLargest floats o stats.result.m_rx_drop_bps w.max_drop_rate v.max_drop_rate x m
            (monitored-err wait_timeout v.max_drop_rate x h).1,
      )
  PollRun-Watched {w} (again {t = t} e run) x h z =
      let (stats, q, m, k) = record_drop-false floats _ _ _ _ e in
      let (rates, s, l) =
        PollRun-Watched run x h
          (rw m (new_max-over_zero floats o stats.result.m_rx_drop_bps w.max_drop_rate z)) in
      (
        stats.result.m_rx_drop_bps ∷ rates,
        next stats (λ i. (q i, sym k i)) s,
        read-IsLargest floats o stats.result.m_rx_drop_bps w.max_drop_rate t.max_drop_rate x rates m
            l,
      )

-- The watch returns a rate only if each read of the global statistics succeeded, but for a last one
-- that fails as a poll does when its time is over; the rate is zero or one of those that were read,
-- and neither zero nor any of them is greater, if the comparison is asymmetric and its negation
-- transitive.
pub monitor_drop_rates-IsLargest :
    {F : Type 0} (env : Env) (poller : Poller) (decoder : Decoder F) (floats : Floats F)
    (seconds : ℤ → ℕ) (e : Executor) (ctx : Context) (c : Client) (h : History) (x : F)
    → IsOrder floats
    → (monitor_drop_rates env poller decoder floats seconds e ctx c h).0 ≡ ok x
    → (rates : List F) × Sampled env decoder c h rates
        (monitor_drop_rates env poller decoder floats seconds e ctx c h).1
      × IsLargest floats floats.zero rates x
unfolding monitor_drop_rates Watched
monitor_drop_rates-IsLargest env poller decoder floats seconds e ctx c h x o k =
    PollRun-Watched env poller decoder floats seconds o c
      (poller.poll_lem (Monitoring _) (with_timeout ctx (seconds e.test_duration)) 10
        (monitor_condition env poller decoder floats seconds c)
        (record { max_drop_rate = floats.zero; history = h }))
      x k (irreflexive floats o floats.zero)
