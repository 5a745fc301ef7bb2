-- ===== src/Scheduler/Counted.antt =====
-- What a batch counts.
use mocop.Base.{
  ℕ, zero, suc, ◌+◌, ◌-◌, ◌≤◌, ◌<◌, String, true, false, Option, none, some, List, [], ◌∷◌, ◌++◌,
  if◌then◌else◌, ltb, length, nat_key, ◌==◌, ==_iff, ==_refl, ◌≡◌, refl, sym, ap, ◌∙◌, arith,
  Bool-cases, inl, inr, if-split, if-case, is_some,
}
use mocop.Base.Int.{Float, ◌-ℤ◌}
use mocop.Base.Dict.{get, put, remove, get-put, get-remove}
use mocop.Scheduler.Batches.{
  ScheduledProbe, ProbeBatch, Rounds, probes_of, submit, end_in, take_out, probe_at, drain, Step,
  submits, ends, step, steps,
}

-- How many probes of a batch are in flight.
pub count : ℕ → List ScheduledProbe → ℕ
count b [] = 0
count b (task ∷ tasks) = (if task.batch_id == b then 1 else 0) + count b tasks

-- What the table says that is left of a batch.
pub left : Option ProbeBatch → ℕ
left none = 0
left (some batch) = batch.remaining

-- The table has exactly the batches of which a probe is in flight, each with their number; batches that
-- were not made are not in it.
pub record IsCounted (r : Rounds) : Type 0 where
  pub counted : (b : ℕ) → left (get r.batches b) ≡ count b r.in_flight
  pub running : (b : ℕ) (batch : ProbeBatch) → get r.batches b ≡ some batch → 0 < batch.remaining
  pub made : (b : ℕ) → r.next_batch_id ≤ b → get r.batches b ≡ none

count-append : (b : ℕ) (xs ys : List ScheduledProbe) → count b (xs ++ ys) ≡ count b xs + count b ys
unfolding count
count-append b [] ys = omega arith
count-append b (x ∷ xs) ys = omega (arith, count-append b xs ys)

count-probes_of :
    (b n : ℕ) (at : Float) (due : List (String × ℕ))
    → count b (probes_of at n due) ≡ (if n == b then length due else 0)
unfolding count probes_of
count-probes_of b n at [] = ground arith
count-probes_of b n at (d ∷ due) = ground (arith, count-probes_of b n at due)

count-take_out :
    (b n : ℕ) (task : ScheduledProbe) (tasks : List ScheduledProbe)
    → probe_at n tasks ≡ some task
    → count b tasks ≡ (if task.batch_id == b then 1 else 0) + count b (take_out n tasks)
unfolding count probe_at take_out
count-take_out b n task [] e = cc
count-take_out b zero task (t ∷ tasks) e = let same : t ≡ task = cc in rw same refl
count-take_out b (suc n) task (t ∷ tasks) e = omega (arith, count-take_out b n task tasks e)

some_running :
    (at : Float) (n : ℕ) (batch : ProbeBatch)
    → ◌≡◌ {A = Option ProbeBatch}
        (some (record { started_at = at; remaining = suc n }))
        (some batch)
    → 0 < batch.remaining
unfolding left
some_running at n batch e = let same : suc n ≡ batch.remaining = ap left e in omega (arith, same)

submit-IsCounted :
    (at : Float) (due : List (String × ℕ)) (r : Rounds) → IsCounted r → IsCounted (submit at due r)
unfolding submit left
submit-IsCounted at [] r h = h
submit-IsCounted at (d ∷ due) r h = record {
  counted = λ b. elim (Bool-cases (r.next_batch_id == b)) [
    | inl e ↦
        let same : r.next_batch_id ≡ b = (==_iff r.next_batch_id b).0 e in
        let before : get r.batches b ≡ none = h.made b (omega (arith, same)) in
        let zero_before : count b r.in_flight ≡ 0 = sym (h.counted b) ∙ rw before refl in
        let new : count b (probes_of at r.next_batch_id (d ∷ due)) ≡ suc (length due) =
          count-probes_of b r.next_batch_id at (d ∷ due) ∙ rw e refl in
        rw (get-put, e)
          (omega (
            arith,
            count-append b r.in_flight (probes_of at r.next_batch_id (d ∷ due)),
            new,
            zero_before,
          ))
    | inr e ↦
        let new : count b (probes_of at r.next_batch_id (d ∷ due)) ≡ 0 =
          count-probes_of b r.next_batch_id at (d ∷ due) ∙ rw e refl in
        rw (get-put, e)
          (omega (
            arith,
            count-append b r.in_flight (probes_of at r.next_batch_id (d ∷ due)),
            new,
            h.counted b,
          ))
  ];
  running = λ b batch. elim (Bool-cases (r.next_batch_id == b)) [
    | inl e ↦ rw (get-put, e) (λ f. some_running at (length due) batch f)
    | inr e ↦ rw (get-put, e) (h.running b batch)
  ];
  made = λ b l.
      let e : (r.next_batch_id == b) ≡ false = ground (arith, l) in
      rw (get-put, e) (h.made b (omega (arith, l)));
}

-- What is left of the batches after one probe of batch `i` has ended.
record Ended (i : ℕ) (tasks : List ScheduledProbe) (old new : Rounds) : Type 0 where
  same_tasks : new.in_flight ≡ tasks
  same_next : new.next_batch_id ≡ old.next_batch_id
  one_less : left (get new.batches i) ≡ left (get old.batches i) - 1
  still_running : (batch : ProbeBatch) → get new.batches i ≡ some batch → 0 < batch.remaining
  others : (b : ℕ) → (i == b) ≡ false → get new.batches b ≡ get old.batches b

end_in-Ended :
    (i : ℕ) (at : Float) (o : Option ProbeBatch) (r : Rounds)
    → get r.batches i ≡ o
    → ((batch : ProbeBatch) → o ≡ some batch → 0 < batch.remaining)
    → Ended i r.in_flight r (end_in i at o r).0
unfolding end_in left
end_in-Ended i at none r e pos = record {
  same_tasks = refl;
  same_next = refl;
  one_less = rw e refl;
  still_running = λ batch f. cc;
  others = λ b n. refl;
}
end_in-Ended i at (some batch) r e pos =
    let gone : (v : Rounds)
        → v.in_flight ≡ r.in_flight
        → v.next_batch_id ≡ r.next_batch_id
        → v.batches ≡ remove r.batches i
        → (batch.remaining == 1) ≡ true
        → Ended i r.in_flight r v =
      λ v tasks next table done. record {
        same_tasks = tasks;
        same_next = next;
        one_less = rw (table, get-remove, ==_refl i, e) (ground (arith, done));
        still_running = λ batch' f.
            let none_left : get v.batches i ≡ none = rw (table, get-remove, ==_refl i) refl in cc;
        others = λ b n. rw (table, get-remove, n) refl;
      } in
    if-split {A = Rounds × Option Float} (λ s. Ended i r.in_flight r s.0) (batch.remaining == 1)
      (if ltb r.last_completed_batch_id i
        then (
          record r { batches = remove r.batches i; last_completed_batch_id = i },
          some (at -ℤ batch.started_at),
        )
        else (record r { batches = remove r.batches i }, none))
      (
        record r { batches = put r.batches i (record batch { remaining = batch.remaining - 1 }) },
        none,
      )
      (λ done.
        if-case {A = Rounds × Option Float} (λ s. Ended i r.in_flight r s.0)
          (ltb r.last_completed_batch_id i)
          (
            record r { batches = remove r.batches i; last_completed_batch_id = i },
            some (at -ℤ batch.started_at),
          )
          (record r { batches = remove r.batches i }, none)
          (gone (record r { batches = remove r.batches i; last_completed_batch_id = i }) refl refl
            refl done)
          (gone (record r { batches = remove r.batches i }) refl refl refl done))
      (λ more. record {
        same_tasks = refl;
        same_next = refl;
        one_less = rw (get-put, ==_refl i, e) refl;
        still_running = λ batch' f.
            let got : get (put r.batches i (record batch { remaining = batch.remaining - 1 })) i
                ≡ some (record batch { remaining = batch.remaining - 1 }) =
              rw (get-put, ==_refl i) refl in
            let same : batch.remaining - 1 ≡ batch'.remaining = ap left (sym got ∙ f) in
            ground (arith, more, same, pos batch refl);
        others = λ b n. rw (get-put, n) refl;
      })

left-none : (o : Option ProbeBatch) → o ≡ none → left o ≡ 0
unfolding left
left-none o e = rw e refl

drain-IsCounted :
    (n : ℕ) (at : Float) (o : Option ScheduledProbe) (r : Rounds)
    → probe_at n r.in_flight ≡ o
    → IsCounted r
    → IsCounted (drain n at o r).0
unfolding drain
drain-IsCounted n at none r e h = h
drain-IsCounted n at (some task) r e h =
    let i : ℕ = task.batch_id in
    let out : Rounds = record r { in_flight = take_out n r.in_flight } in
    let new : Rounds = (end_in i at (get r.batches i) out).0 in
    let ended : Ended i (take_out n r.in_flight) out new =
      end_in-Ended i at (get r.batches i) out refl (h.running i) in
    let here : count i r.in_flight ≡ 1 + count i (take_out n r.in_flight) =
      count-take_out i n task r.in_flight e ∙ rw (==_refl i) refl in
    record {
      counted = λ b. rw ended.same_tasks (
          let counts = count-take_out b n task r.in_flight e in
          elim (Bool-cases (i == b)) [
            | inl s ↦
                let same : i ≡ b = (==_iff i b).0 s in
                rw (← same) (omega (arith, ended.one_less, h.counted i, here))
            | inr s ↦ rw (ended.others b s) (h.counted b ∙ counts ∙ rw s (omega arith))
          ]);
      running = λ b batch. elim (Bool-cases (i == b)) [
        | inl s ↦ let same : i ≡ b = (==_iff i b).0 s in rw (← same) (ended.still_running batch)
        | inr s ↦ rw (ended.others b s) (h.running b batch)
      ];
      made = λ b l. elim (Bool-cases (i == b)) [
        | inl s ↦
            let same : i ≡ b = (==_iff i b).0 s in
            let absent : get r.batches i ≡ none =
              h.made i (omega (arith, same, l, ended.same_next)) in
            let no_task : 0 ≡ count i r.in_flight =
              sym (left-none (get r.batches i) absent) ∙ h.counted i in
            absurd (omega (arith, no_task, here))
        | inr s ↦ ended.others b s ∙ h.made b (omega (arith, l, ended.same_next))
      ];
    }

step-IsCounted : (s : Step) (r : Rounds) → IsCounted r → IsCounted (step s r)
unfolding step
step-IsCounted (submits at due) r h = submit-IsCounted at due r h
step-IsCounted (ends n at) r h = drain-IsCounted n at (probe_at n r.in_flight) r refl h

steps-IsCounted : (ss : List Step) (r : Rounds) → IsCounted r → IsCounted (steps ss r)
unfolding steps
steps-IsCounted [] r h = h
steps-IsCounted (s ∷ ss) r h = steps-IsCounted ss (step s r) (step-IsCounted s r h)

-- The state with which `run` begins.
abbrev pub idle_rounds : Rounds
idle_rounds = record {
  in_flight = [];
  batches = [];
  next_batch_id = 1;
  last_completed_batch_id = 0;
}

idle-IsCounted : IsCounted idle_rounds
unfolding get left count
idle-IsCounted = record { counted = λ b. refl; running = λ b batch e. cc; made = λ b l. refl }

present :
    (o : Option ProbeBatch) (n : ℕ)
    → ((batch : ProbeBatch) → o ≡ some batch → 0 < batch.remaining)
    → left o ≡ n
    → is_some o ≡ ltb 0 n
unfolding left
present none n pos e = ground (arith, e)
present (some batch) n pos e = ground (arith, e, pos batch refl)

-- From the start, whatever was submitted and in whatever order the probes ended: a batch is in the
-- table exactly while one of its probes is in flight, and what is left of it is their number.
pub steps-counted :
    (ss : List Step) (b : ℕ)
    → (left (get (steps ss idle_rounds).batches b) ≡ count b (steps ss idle_rounds).in_flight)
      × (is_some (get (steps ss idle_rounds).batches b)
          ≡ ltb 0 (count b (steps ss idle_rounds).in_flight))
steps-counted ss b =
    let h = steps-IsCounted ss idle_rounds idle-IsCounted in
    (h.counted b, present (get (steps ss idle_rounds).batches b) _ (h.running b) (h.counted b))
