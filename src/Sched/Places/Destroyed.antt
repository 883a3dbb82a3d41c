-- ===== src/Sched/Places/Destroyed.antt =====
-- `final_schedule` leaves no destroyed task in a queue.
use cgo.Base.{
  count, ℕ, ◌≡◌, ◌≢◌, refl, true, false, Option, none, some, List, [], ◌∷◌, ◌++◌, arith, has, All,
  All-map, update, Bool-cases, inl, inr, ap, ◌∙◌, sym, subst,
}
use cgo.Sched.{World, slot, set_scheduler}
use cgo.Sched.Condition.{unlink_task, remove, same_ctx, schedule_from_this}
use cgo.Sched.Run.{final_task, final_tasks, final_schedule}
use cgo.Sched.Run.Held.{held_by, Gained, final_schedule-Gained}
use cgo.Sched.Run.Final.{waiting_among, Releases, final_schedule_lem}
use cgo.Sched.Places.Unwound.{IsRid, IsRid-then, woken-nowhere, release_all-IsRid}
use cgo.Sched.Places.{
  Place, nowhere, running, queued, blocked, same, without, same-eq, same-nowhere, joined-nowhere,
  without-absent, without-nowhere,
}
use cgo.Sched.Places.Moves.{
  lists, home, IsHome, IsTidy, IsAlike, IsSteady, IsSteady-trans, IsSteady-IsSpared, move-IsTidy,
  lists-unlink, unlink_task-IsSteady, schedule_first-IsSteady,
}
use cgo.Sched.Places.Shift.{woken, schedule_first-IsTidy, alike-IsTidy}

module _ (place : ℕ → Place) (w : World) (d : IsTidy place [] w) (t s : ℕ)
    (waits : (w.tasks t).waiting_cond ≡ some s) where
  -- A task that waits for `s` is in its run queue, blocked by `s`, or nowhere.
  lists-unlink_place :
      (k : Place) → lists [] (unlink_task t s w) k ≡ without t (place t) k (lists [] w k)
  unfolding without
  lists-unlink_place k = lists-unlink [] w t s k ∙ by_place (place t) refl
    where
      from : Place → List ℕ
      from l = without t l k (lists [] w k)

      away : (l p : Place) → place t ≡ p → l ≢ p → same k l ≡ true → has t (lists [] w k) ≡ false
      away l p e n y = elim (Bool-cases (has t (lists [] w k))) [
        | inr f ↦ f
        | inl f ↦
            absurd
              (n (same-eq k l y ∙ sym (same-eq k (place t) (sym (d.placed.holds k t) ∙ f)) ∙ e))
      ]

      by_place : (p : Place) → place t ≡ p → without t (home w t) k (from (blocked s)) ≡ from p
      by_place nowhere e =
          let f =
            without-absent t (blocked s) k (lists [] w k)
              (away (blocked s) nowhere e (λ z. ground (arith, z))) in
          ap (without t (home w t) k) f
          ∙ without-absent t (home w t) k (lists [] w k)
              (away (home w t) nowhere e (λ z. ground (arith, z)))
          ∙ sym (without-nowhere t k (lists [] w k))
      by_place running e = absurd (ground (arith, d.placed.holds running t, ap (same running) e))
      by_place (queued c i) e =
          let h : IsHome w t (queued c i) = subst (IsHome w t) e (d.homes t) in
          let own : home w t ≡ queued c i =
            ground (arith, h.0, ap (λ (x : ℕ). slot w x (w.tasks t).id) h.0, h.1) in
          ap (without t (home w t) k) (
            without-absent t (blocked s) k (lists [] w k)
              (away (blocked s) (queued c i) e (λ z. ground (arith, z))))
          ∙ ap from own
      by_place (blocked r) e =
          let h : IsHome w t (blocked r) = subst (IsHome w t) e (d.homes t) in
          let own : s ≡ r = ground (arith, h, waits) in
          ap (λ q. without t (home w t) k (from (blocked q))) own
          ∙ without-absent t (home w t) k (from (blocked r)) (λ y.
            ap (λ l. has t (without t (blocked r) l (lists [] w l))) (sym (same-eq k (home w t) y))
            ∙ d.placed.holds (home w t) t
            ∙ ap (same (home w t)) e)

  unlink_task-IsTidy : IsTidy (update place t nowhere) [] (unlink_task t s w)
  unlink_task-IsTidy =
      move-IsTidy place [] [] w (unlink_task t s w) t nowhere d
        (λ k.
          lists-unlink_place k ∙ sym (joined-nowhere t k (without t (place t) k (lists [] w k))))
        (IsSteady-IsSpared t (unlink_task-IsSteady t s w)) tt

remove-IsRid :
    (place : ℕ → Place) (w : World) (t s : ℕ)
    → IsTidy place [] w
    → (w.tasks t).waiting_cond ≡ some s
    → (new : ℕ → Place) × IsRid place (t ∷ []) w (remove t s w) new
unfolding remove schedule_from_this
remove-IsRid place w t s d e =
    elim (Bool-cases (same_ctx (w.sems s).cond.scheduled_ctx (w.tasks t).ctx)) [
      | inl y ↦ rw y (
        woken gone u b,
        record {
          tidy = schedule_first-IsTidy gone [] u s b g refl;
          still = λ a n. woken-nowhere gone u s a b g refl (free a n);
          now = (woken-nowhere gone u s t b g refl (ground arith), tt);
          steady = IsSteady-trans h (schedule_first-IsSteady s b u);
        },
      )
      | inr n ↦ rw n (gone, record { tidy = g; still = free; now = (ground arith, tt); steady = h })
    ]
  where
    u : World
    u = unlink_task t s w

    gone : ℕ → Place
    gone = update place t nowhere

    g : IsTidy gone [] u
    g = unlink_task-IsTidy place w d t s e

    h : IsSteady w u
    h = unlink_task-IsSteady t s w

    b : List ℕ
    b = (u.sems s).cond.blocked

    free : (a : ℕ) → place a ≡ nowhere → gone a ≡ nowhere
    free a n = ground (arith, n)

module _ (held : ℕ → List ℕ) (unwind : ℕ → World → World) (u : Releases held unwind) where
  gone-IsRid :
      (place : ℕ → Place) (w : World) (t s : ℕ)
      → IsTidy place [] w
      → (w.tasks t).waiting_cond ≡ some s
      → (new : ℕ → Place) × IsRid place (t ∷ []) w (unwind t (remove t s w)) new
  gone-IsRid place w t s d e =
      let (p, x) = remove-IsRid place w t s d e in
      let (q, y) = release_all-IsRid (held t) p (remove t s w) x.tidy in
      (q, IsRid-then x (subst (λ v. IsRid p [] (remove t s w) v q) (sym (u t (remove t s w))) y))

  final_tasks-IsRid :
      (ts : List ℕ) (place : ℕ → Place) (w : World)
      → IsTidy place [] w
      → (new : ℕ → Place) × IsRid place
          (final_tasks unwind ts w).1
          w
          (final_tasks unwind ts w).0
          new
  unfolding final_tasks final_task
  final_tasks-IsRid [] place w d = (
    place,
    record {
      tidy = d;
      still = λ a n. n;
      now = tt;
      steady = record { tasks = refl; sizes = λ c. refl };
    },
  )
  final_tasks-IsRid (t ∷ ts) place w d = go (w.tasks t).waiting_cond refl (final_tasks-IsRid ts)
    where
      go :
          (o : Option ℕ)
          → (w.tasks t).waiting_cond ≡ o
          → ((p : ℕ → Place) (v : World)
              → IsTidy p [] v
              → (new : ℕ → Place) × IsRid p
                  (final_tasks unwind ts v).1
                  v
                  (final_tasks unwind ts v).0
                  new)
          → let r = final_task unwind t o w in
            (new : ℕ → Place) × IsRid place
              (r.1 ++ (final_tasks unwind ts r.0).1)
              w
              (final_tasks unwind ts r.0).0
              new
      go none e rest = rest place w d
      go (some s) e rest =
          let first = gone-IsRid place w t s d e in
          let more = rest first.0 (unwind t (remove t s w)) first.1.tidy in
          (
            more.0,
            record {
              tidy = more.1.tidy;
              still = λ a n. more.1.still a (first.1.still a n);
              now = (more.1.still t first.1.now.0, more.1.now);
              steady = IsSteady-trans first.1.steady more.1.steady;
            },
          )

  -- When no task runs, a table tells where the tasks are, and the destruction of the frames of a task only releases the semaphores
  -- that it holds, which may wake tasks of any partition: `final_schedule` of a partition destroys the frames of exactly its waiting
  -- tasks, in the order of the pool; every semaphore gets back as many permits as these tasks held; after it there is
  -- such a table again, and every destroyed task is in no run queue and is blocked by no condition.
  pub final_schedule-Rid :
      (place : ℕ → Place) (w : World) (c pindex : ℕ)
      → IsTidy place [] w
      → let r = final_schedule unwind c pindex w in
        (r.1 ≡ waiting_among w.tasks ((w.contexts c).allocators (slot w c pindex)).pool)
        × ((s : ℕ) → Gained s (count s (held_by held r.1)) w r.0)
        × ((new : ℕ → Place) × IsTidy new [] r.0)
        × All (λ t. (k : Place) → has t (lists [] r.0 k) ≡ false) r.1
  unfolding final_schedule
  final_schedule-Rid place w c pindex d =
      let i = slot w c pindex in
      let v : World =
        set_scheduler c i (record ((w.contexts c).schedulers i) { signal = none }) w in
      let like : IsAlike w v = record {
        queues = λ e l. ground arith;
        conds = λ s. refl;
        sizes = λ e. ground arith;
      } in
      let r =
        final_tasks-IsRid ((w.contexts c).allocators i).pool place v
          (alike-IsTidy place [] w d v like refl) in
      (
        (final_schedule_lem held unwind u c pindex 0 0 w).0,
        (λ s. final_schedule-Gained held unwind u s c pindex w),
        (r.0, r.1.tidy),
        All-map _ (λ t h k. r.1.tidy.placed.holds k t ∙ ap (same k) h ∙ same-nowhere k) r.1.now,
      )
