-- ===== src/Rpc/Task/Calling.antt =====
-- How often the call of a task is made.
use network_core.Common.{
  ℕ, zero, suc, ◌+◌, ◌≡◌, refl, sym, ap, subst, ◌∙◌, Bool, true, false, not, ◌||◌, Option, none,
  some, List, [], ◌∷◌, ◌++◌, ◌==◌, if◌then◌else◌, arith, Bool-cases, inl, inr,
}
use network_core.Rpc.Task.{
  RpcTask, TaskEffect, connects_then_calls, calls, calls_after, connects_and_waits, creates_barrier,
  calls_waited, waits, throws, sets_reply, sets_on_ok, sets_on_error, clears_on_error, sets_timeout,
  cancels, uses_null, new_task, move_task, copy_task, do_call_managed, call_and_wait,
  unless_dismissed, call_managed, call_waited, prepare_wait, do_call_and_wait, holding, cancel_task,
  reply_task, on_ok_task, on_error_task, delay_task, timeout_task, wait_task, TaskMove, construct,
  move_from, copy_from, destroy, cancel_at, reply_at, on_ok_at, on_error_at, delay_at, timeout_at,
  wait_at, at_task, task_at, moved_from, task_step, run_tasks,
}

-- the effects that settle the call of context `q`: it is made, or its failure is thrown
unfoldable pub one_if : Bool → ℕ
one_if b = if b then 1 else 0

unfoldable pub settles : ℕ → TaskEffect → ℕ
unfolding one_if
settles q (connects_then_calls c d) = one_if (c == q)
settles q (calls c) = one_if (c == q)
settles q (calls_after c d) = one_if (c == q)
settles q (connects_and_waits c) = 0
settles q (creates_barrier c) = 0
settles q (calls_waited c) = one_if (c == q)
settles q (waits c) = 0
settles q (throws c e) = one_if (c == q)
settles q (sets_reply c r) = 0
settles q (sets_on_ok c) = 0
settles q (sets_on_error c) = 0
settles q (clears_on_error c) = 0
settles q (sets_timeout c d) = 0
settles q (cancels c) = 0
settles q uses_null = 0

unfoldable pub settled : ℕ → List TaskEffect → ℕ
unfolding settles
settled q [] = 0
settled q (e ∷ es) = settles q e + settled q es

-- the tasks for context `q` that have not given their call away
unfoldable pub pending : ℕ → List RpcTask → ℕ
unfolding one_if
pending q [] = 0
pending q (t ∷ ts) = (if t.dismiss then 0 else one_if (t.ctx == q)) + pending q ts

-- the tasks that a move adds: a new one, or a copy of one that is pending
unfoldable pub added : ℕ → TaskMove → List RpcTask → ℕ
unfolding one_if pending
added q (construct ctx) ts = one_if (ctx == q)
added q (copy_from i) ts = pending q (task_at i ts)
added q _ ts = 0

unfoldable pub added_all : ℕ → List TaskMove → List RpcTask → ℕ
unfolding added
added_all q [] ts = 0
added_all q (m ∷ ms) ts = added q m ts + added_all q ms (task_step m ts).0

module _ (q : ℕ) where
  settled-append : (es fs : List TaskEffect) → settled q (es ++ fs) ≡ settled q es + settled q fs
  unfolding settled
  settled-append [] fs = omega arith
  settled-append (e ∷ es) fs = omega (arith, settled-append es fs)

  pending-append : (ts us : List RpcTask) → pending q (ts ++ us) ≡ pending q ts + pending q us
  unfolding pending
  pending-append [] us = omega arith
  pending-append (t ∷ ts) us = omega (arith, pending-append ts us)

  -- an operation that gives the call away when it settles it
  Keeps : (RpcTask → RpcTask × List TaskEffect) → Type 0
  Keeps f = (t : RpcTask) → settled q (f t).1 + pending q ((f t).0 ∷ []) ≡ pending q (t ∷ [])

  at_task-Keeps :
      (f : RpcTask → RpcTask × List TaskEffect)
      → Keeps f
      → (i : ℕ) (ts : List RpcTask)
      → settled q (at_task f i ts).1 + pending q (at_task f i ts).0 ≡ pending q ts
  unfolding at_task pending Keeps settled
  at_task-Keeps f k i [] = refl
  at_task-Keeps f k zero (t ∷ ts) = omega (arith, k t)
  at_task-Keeps f k (suc i) (t ∷ ts) = omega (arith, at_task-Keeps f k i ts)

  -- the pending part of a task that has, or has not, given its call away
  pending_of :
      (t : RpcTask) (b : Bool)
      → t.dismiss ≡ b
      → pending q (t ∷ []) ≡ (if b then 0 else one_if (t.ctx == q))
  unfolding pending
  pending_of t b e = ap (λ (x : Bool). (if x then 0 else one_if (t.ctx == q)) + 0) e ∙ omega arith

  -- an operation that does nothing to a task that has, and otherwise settles its call
  once :
      (f : RpcTask → RpcTask × List TaskEffect) (t : RpcTask)
      → (t.dismiss ≡ true → f t ≡ (t, []))
      → (t.dismiss ≡ false → ((f t).0.dismiss ≡ true) × (settled q (f t).1 ≡ one_if (t.ctx == q)))
      → settled q (f t).1 + pending q ((f t).0 ∷ []) ≡ pending q (t ∷ [])
  unfolding settled
  once f t done open_ = elim (Bool-cases t.dismiss) [
    | inl h ↦
        ap (λ (r : RpcTask × List TaskEffect). settled q r.1 + pending q (r.0 ∷ [])) (done h)
        ∙ omega arith
    | inr h ↦
        (let (after, one) = open_ h in
          omega (arith, one, pending_of (f t).0 true after, pending_of t false h))
  ]

  -- what settles the call of a task at once
  Settles : RpcTask → RpcTask × List TaskEffect → Type 0
  Settles t r = (r.0.dismiss ≡ true) × (settled q r.1 ≡ one_if (t.ctx == q))

  call_managed-Settles : (d now : Bool) (t : RpcTask) → Settles t (call_managed d now t)
  unfolding call_managed Settles settled settles
  call_managed-Settles true now t = (refl, omega arith)
  call_managed-Settles false true t = (refl, omega arith)
  call_managed-Settles false false t = (refl, omega arith)

  call_waited-Settles : (d : Bool) (ec : Option ℕ) (t : RpcTask) → Settles t (call_waited d ec t)
  unfolding call_waited call_and_wait Settles settled settles
  call_waited-Settles false ec t = (refl, omega arith)
  call_waited-Settles true none t = (refl, omega arith)
  call_waited-Settles true (some ec) t = (refl, omega arith)

  is_dismissed :
      (t : RpcTask) (r : RpcTask × List TaskEffect)
      → t.dismiss ≡ true
      → unless_dismissed t r ≡ (t, [])
  unfolding unless_dismissed
  is_dismissed t r h = ap (λ (b : Bool). if b then (t, []) else r) h

  not_dismissed :
      (t : RpcTask) (r : RpcTask × List TaskEffect) → t.dismiss ≡ false → unless_dismissed t r ≡ r
  unfolding unless_dismissed
  not_dismissed t r h = ap (λ (b : Bool). if b then (t, []) else r) h

  do_call_managed-Keeps : (d : Bool) → Keeps (do_call_managed d)
  unfolding Keeps do_call_managed Settles
  do_call_managed-Keeps d t =
      let r = call_managed d (not t.has_timer || (t.duration == 0)) t in
      once (do_call_managed d) t (λ h. is_dismissed t r h)
        (λ h. subst (Settles t) (sym (not_dismissed t r h)) (call_managed-Settles d _ t))

  wait_task-Keeps : (d : Bool) (ec : Option ℕ) (n : ℕ) → Keeps (wait_task d ec n)
  unfolding Keeps wait_task prepare_wait do_call_and_wait Settles settled settles
  wait_task-Keeps d ec n t =
      let ready = record t { has_result = true } in
      let pre = sets_timeout t.ctx n ∷ (sets_on_ok t.ctx ∷ (clears_on_error t.ctx ∷ [])) in
      let next : RpcTask × List TaskEffect → RpcTask × List TaskEffect =
        λ p. ((do_call_and_wait d ec p.0).0, p.1 ++ (do_call_and_wait d ec p.0).1) in
      once (wait_task d ec n) t
        (λ h. ap next (is_dismissed t (ready, pre) h) ∙ is_dismissed t (call_waited d ec t) h)
        (λ h.
          subst (Settles t)
            (sym (
              ap next (not_dismissed t (ready, pre) h)
              ∙ ap (λ (r : RpcTask × List TaskEffect). (r.0, pre ++ r.1))
                  (not_dismissed ready (call_waited d ec ready) h)))
            (let (done, one) = call_waited-Settles d ec ready in (done, omega (arith, one))))

  -- an operation that leaves the call where it is
  Quiet : RpcTask → RpcTask × List TaskEffect → Type 0
  Quiet t r = (r.0.dismiss ≡ t.dismiss) × ((r.0.ctx ≡ t.ctx) × (settled q r.1 ≡ 0))

  Quiet-Keeps :
      (f : RpcTask → RpcTask × List TaskEffect) → ((t : RpcTask) → Quiet t (f t)) → Keeps f
  unfolding Keeps Quiet pending
  Quiet-Keeps f k t =
      let (same, (ctx, none_)) = k t in
      omega (
        arith,
        none_,
        ap (λ (b : Bool). if b then 0 else one_if ((f t).0.ctx == q)) same,
        ap (λ c. if t.dismiss then 0 else one_if (c == q)) ctx,
      )

  Quiet-holding : (t : RpcTask) (r : RpcTask × List TaskEffect) → Quiet t r → Quiet t (holding t r)
  unfolding Quiet holding settled settles
  Quiet-holding t r k =
      let Good = λ (x : RpcTask × List TaskEffect). Quiet t x in
      elim (Bool-cases t.holds) [
        | inl h ↦ subst Good (sym (ap (λ (b : Bool). if b then r else (t, uses_null ∷ [])) h)) k
        | inr h ↦
            subst Good (sym (ap (λ (b : Bool). if b then r else (t, uses_null ∷ [])) h))
              (refl, (refl, refl))
      ]

  delay_task-Quiet : (n : ℕ) (t : RpcTask) → Quiet t (delay_task n t)
  unfolding Quiet delay_task settled
  delay_task-Quiet n t =
      let Good = λ (x : RpcTask × List TaskEffect). Quiet t x in
      let made = record t { has_timer = true; duration = n } in
      let timed : Bool → RpcTask × List TaskEffect =
        λ b. if b then (record t { duration = n }, []) else holding t (made, []) in
      let first : Bool → RpcTask × List TaskEffect =
        λ b. if b then (t, []) else timed t.has_timer in
      elim (Bool-cases (n == 0)) [
        | inl h ↦ subst Good (sym (ap first h)) (refl, (refl, refl))
        | inr h ↦ (elim (Bool-cases t.has_timer) [
          | inl k ↦ subst Good (sym (ap first h ∙ ap timed k)) (refl, (refl, refl))
          | inr k ↦
              subst Good (sym (ap first h ∙ ap timed k))
                (Quiet-holding t (made, []) (refl, (refl, refl)))
        ])
      ]

  -- a task that is moved from is pending no more, and the new one is in its place
  moved_lem :
      (i : ℕ) (ts : List RpcTask)
      → (settled q (at_task moved_from i ts).1 ≡ 0)
        × (pending q ((at_task moved_from i ts).0 ++ task_at i ts) ≡ pending q ts)
  unfolding at_task moved_from move_task task_at pending settled
  moved_lem i [] = (refl, refl)
  moved_lem zero (t ∷ ts) = (refl, omega (arith, pending-append ts (t ∷ [])))
  moved_lem (suc i) (t ∷ ts) = let (none_, same) = moved_lem i ts in (none_, omega (arith, same))

  task_step_lem :
      (m : TaskMove) (ts : List RpcTask)
      → settled q (task_step m ts).1 + pending q (task_step m ts).0 ≡ pending q ts + added q m ts
  unfolding task_step added settled settles pending new_task copy_task cancel_task reply_task
      on_ok_task on_error_task timeout_task Quiet
  task_step_lem (construct ctx) ts = omega (arith, pending-append ts (new_task ctx ∷ []))
  task_step_lem (move_from i) ts = omega (arith, (moved_lem i ts).1)
  task_step_lem (copy_from i) ts = omega (arith, pending-append ts (task_at i ts))
  task_step_lem (destroy d i) ts =
      at_task-Keeps (do_call_managed d) (do_call_managed-Keeps d) i ts ∙ omega arith
  task_step_lem (cancel_at i) ts =
      at_task-Keeps cancel_task
        (Quiet-Keeps cancel_task (λ t. Quiet-holding t _ (refl, (refl, refl)))) i ts
      ∙ omega arith
  task_step_lem (reply_at r i) ts =
      at_task-Keeps (reply_task r)
        (Quiet-Keeps (reply_task r) (λ t. Quiet-holding t _ (refl, (refl, refl)))) i ts
      ∙ omega arith
  task_step_lem (on_ok_at i) ts =
      at_task-Keeps on_ok_task
        (Quiet-Keeps on_ok_task (λ t. Quiet-holding t _ (refl, (refl, refl)))) i ts
      ∙ omega arith
  task_step_lem (on_error_at i) ts =
      at_task-Keeps on_error_task
        (Quiet-Keeps on_error_task (λ t. Quiet-holding t _ (refl, (refl, refl)))) i ts
      ∙ omega arith
  task_step_lem (delay_at n i) ts =
      at_task-Keeps (delay_task n) (Quiet-Keeps (delay_task n) (delay_task-Quiet n)) i ts
      ∙ omega arith
  task_step_lem (timeout_at n i) ts =
      at_task-Keeps (timeout_task n)
        (Quiet-Keeps (timeout_task n) (λ t. Quiet-holding t _ (refl, (refl, refl)))) i ts
      ∙ omega arith
  task_step_lem (wait_at d ec n i) ts =
      at_task-Keeps (wait_task d ec n) (wait_task-Keeps d ec n) i ts ∙ omega arith

  -- Whatever a program does with its tasks, the call of a context is given away once for each task:
  -- made at once, by the timer, or by the connection that is opened for it, or its connection failed
  -- for a task that waits. These times and the tasks that have not given the call away yet are
  -- together the tasks that there were before, those constructed, and the copies that were made of
  -- tasks which had not given it away.
  pub run_tasks-settled :
      (ms : List TaskMove) (ts : List RpcTask)
      → settled q (run_tasks ms ts).1 + pending q (run_tasks ms ts).0
        ≡ pending q ts + added_all q ms ts
  unfolding run_tasks added_all settled
  run_tasks-settled [] ts = omega arith
  run_tasks-settled (m ∷ ms) ts = omega (
    arith,
    task_step_lem m ts,
    run_tasks-settled ms (task_step m ts).0,
    settled-append (task_step m ts).1 (run_tasks ms (task_step m ts).0).1,
  )
