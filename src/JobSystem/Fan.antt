-- ===== src/JobSystem/Fan.antt =====
-- job_system/jobsystem.h: the handles of two jobs and of one that follows both.
use seakcutils.Base.{◌≡◌, ◌∙◌, refl, sym, ap, some, [], ◌∷◌, ◌++◌, add_size, sub_size}
use seakcutils.Channel.{opened}
use seakcutils.JobSystem.{Pointer, JobHandle, System, put, link, job_then}
use seakcutils.JobSystem.Links.{Distinct, AllFresh, put_at, put_off}
use seakcutils.JobSystem.Chains.{schedule_one}
use seakcutils.JobSystem.Worker.{Shared, lowered}

-- The handles of three jobs.
pub record Fan (a b c : Pointer) (jobs : Pointer → JobHandle) (x y z : JobHandle) : Type 0 where
  pub at_a : jobs a ≡ x
  pub at_b : jobs b ≡ y
  pub at_c : jobs c ≡ z

module _ {a b c : Pointer} (jobs : Pointer → JobHandle) {x y z : JobHandle} (h : JobHandle)
    (d : Distinct (a ∷ b ∷ c ∷ [])) (f : Fan a b c jobs x y z) where
  put_a : {x' : JobHandle} → h ≡ x' → Fan a b c (put jobs a h) x' y z
  put_a e = record {
    at_a = put_at jobs a h ∙ e;
    at_b = put_off jobs a h b d.0.0 ∙ f.at_b;
    at_c = put_off jobs a h c d.0.1.0 ∙ f.at_c;
  }

  put_b : {y' : JobHandle} → h ≡ y' → Fan a b c (put jobs b h) x y' z
  put_b e = record {
    at_a = put_off jobs b h a (λ q. d.0.0 (sym q)) ∙ f.at_a;
    at_b = put_at jobs b h ∙ e;
    at_c = put_off jobs b h c d.1.0.0 ∙ f.at_c;
  }

  put_c : {z' : JobHandle} → h ≡ z' → Fan a b c (put jobs c h) x y z'
  put_c e = record {
    at_a = put_off jobs c h a (λ q. d.0.1.0 (sym q)) ∙ f.at_a;
    at_b = put_off jobs c h b (λ q. d.1.0.0 (sym q)) ∙ f.at_b;
    at_c = put_at jobs c h ∙ e;
  }

abbrev before : Pointer → JobHandle → JobHandle
before c k = record k { continuation = some c }

abbrev waiting : JobHandle → JobHandle
waiting k = record k { unfinished = add_size k.unfinished 1 }

abbrev less : JobHandle → JobHandle
less k = record k { unfinished = sub_size k.unfinished 1 }

module _ {a b c : Pointer} {x y z : JobHandle} (d : Distinct (a ∷ b ∷ c ∷ [])) where
  link_a :
      (s : System) → Fan a b c s.jobs x y z → Fan a b c (link a c s).jobs (before c x) y (waiting z)
  unfolding link
  link_a s f =
      let linked = put s.jobs a (record (s.jobs a) { continuation = some c }) in
      let f' = put_a s.jobs _ d f (ap (before c) f.at_a) in put_c linked _ d f' (ap waiting f'.at_c)

  link_b :
      (s : System) → Fan a b c s.jobs x y z → Fan a b c (link b c s).jobs x (before c y) (waiting z)
  unfolding link
  link_b s f =
      let linked = put s.jobs b (record (s.jobs b) { continuation = some c }) in
      let f' = put_b s.jobs _ d f (ap (before c) f.at_b) in put_c linked _ d f' (ap waiting f'.at_c)

  pub lower_ab :
      (s : Shared)
      → Fan a b c s.base.jobs x y z
      → Fan a b c (lowered b (lowered a s)).base.jobs (less x) (less y) z
  lower_ab s f =
      let f' = put_a s.base.jobs _ d f (ap less f.at_a) in
      put_b (lowered a s).base.jobs _ d f' (ap less f'.at_b)

  pub lower_cc :
      (s : Shared)
      → Fan a b c s.base.jobs x y z
      → Fan a b c (lowered c (lowered c s)).base.jobs x y (less (less z))
  lower_cc s f =
      let f' = put_c s.base.jobs _ d f (ap less f.at_c) in
      put_c (lowered c s).base.jobs _ d f' (ap less f'.at_c)

-- The two jobs are linked to the third one and wait in the queue.
abbrev pub linked_both : Pointer → Pointer → Pointer → System → System
linked_both a b c s = record (link b c (record (link a c s) { queue = a ∷ [] })) {
  queue = a ∷ b ∷ [];
}

module _ (a b c : Pointer) (s : System) (d : Distinct (a ∷ b ∷ c ∷ []))
    (fresh : AllFresh s.jobs (a ∷ b ∷ c ∷ [])) where
  pub fan :
      Fan a b c
        (linked_both a b c s).jobs
        (before c (s.jobs a))
        (before c (s.jobs b))
        (waiting (waiting (s.jobs c)))
  fan =
      let f : Fan a b c s.jobs (s.jobs a) (s.jobs b) (s.jobs c) = record {
        at_a = refl;
        at_b = refl;
        at_c = refl;
      } in
      link_b d (record (link a c s) { queue = a ∷ [] }) (link_a d s f)

  pub job_then_both :
      s.queue ≡ [] → s.state ≡ opened → job_then b c (job_then a c s) ≡ linked_both a b c s
  unfolding job_then link
  job_then_both queue open_ =
      let f : Fan a b c s.jobs (s.jobs a) (s.jobs b) (s.jobs c) = record {
        at_a = refl;
        at_b = refl;
        at_c = refl;
      } in
      let f' = link_a d s f in
      let s1 : System = record (link a c s) { queue = a ∷ [] } in
      let one : job_then a c s ≡ s1 =
        schedule_one a (link a c s) (ap (λ k. k.unfinished) f'.at_a ∙ fresh.0) open_
        ∙ ap (λ q. record (link a c s) { queue = q ++ a ∷ [] }) queue in
      ap (job_then b c) one
      ∙ schedule_one b (link b c s1) (ap (λ k. k.unfinished) fan.at_b ∙ fresh.2.0) open_
