-- ===== src/NodeCounter/Dummy/Countdown.antt =====
-- When the counter completes.
use lib_smoke.Base.{ℕ, zero, suc, ◌≤◌, ◌<◌, ◌≡◌, refl, arith, List, [], ◌∷◌, length}
use lib_smoke.Telegram.{Telegram}
use lib_smoke.PktWrapper.{Pkt, PktWrapper}
use lib_smoke.NodeCounter.{counter_counting, counter_completed}
use lib_smoke.NodeCounter.Dummy.{Dummy, take_in, count_down, announce, update}

module _ (id : ℕ) (junk : ℕ → Telegram) (n : ℕ) where
  -- `update` once for each wrapper of a list: what the wrapper holds when it is called
  unfoldable pub updates : Dummy → List PktWrapper → Dummy
  updates s [] = s
  updates s (w ∷ ws) = updates (update id junk n s w).1 ws

  -- while it counts down, an update takes one from what remains
  counts_down :
      (s : Dummy) (w : PktWrapper) (r : ℕ)
      → s.status ≡ counter_counting
      → s.loops_remaining ≡ suc (suc r)
      → ((update id junk n s w).1.status ≡ counter_counting)
        × ((update id junk n s w).1.loops_remaining ≡ suc r)
  unfolding update count_down
  counts_down s w r c h = ground (arith, c, h)

  last_update :
      (s : Dummy) (w : PktWrapper)
      → s.status ≡ counter_counting
      → s.loops_remaining ≡ 1
      → (update id junk n s w).1.status ≡ counter_completed
  unfolding update count_down
  last_update s w c h = ground (arith, c, h)

  take_in-full :
      (nodes : List ℕ) (ps : List Pkt) → length nodes ≡ n → (take_in n nodes ps).0 ≡ nodes
  unfolding take_in
  take_in-full nodes [] e = refl
  take_in-full nodes (p ∷ ps) e = ground (arith, e)

  all_found :
      (s : Dummy) (w : PktWrapper)
      → s.status ≡ counter_counting
      → s.loops_remaining ≡ 0
      → length s.nodes ≡ n
      → ((update id junk n s w).1.status ≡ counter_counting)
        × ((update id junk n s w).1.loops_remaining ≡ 64)
  unfolding update count_down
  all_found s w c h e =
      ground (arith, c, h, e, take_in-full s.nodes (announce id junk s w).in_queue e)

  completed-stays :
      (s : Dummy) (ws : List PktWrapper)
      → s.status ≡ counter_completed
      → (updates s ws).status ≡ counter_completed
  unfolding updates update
  completed-stays s [] c = c
  completed-stays s (w ∷ ws) c = completed-stays (update id junk n s w).1 ws (ground (arith, c))

  countdown :
      (r : ℕ) (s : Dummy) (ws : List PktWrapper)
      → s.status ≡ counter_counting
      → s.loops_remaining ≡ suc r
      → (length ws ≤ r → (updates s ws).status ≡ counter_counting)
        × (r < length ws → (updates s ws).status ≡ counter_completed)
  unfolding updates
  countdown r s [] c h = (λ lt. c, λ lt. absurd (omega arith))
  countdown zero s (w ∷ ws) c h = (
    λ lt. absurd (omega arith),
    λ lt. completed-stays (update id junk n s w).1 ws (last_update s w c h),
  )
  countdown (suc r) s (w ∷ ws) c h =
      let d = counts_down s w r c h in
      let ih = countdown r (update id junk n s w).1 ws d.0 d.1 in
      (λ lt. ih.0 (omega arith), λ lt. ih.1 (omega arith))

  -- A counter that knows all its nodes and has not begun to count down is still counting after any
  -- 64 further updates or fewer, and has completed after any 65 or more, whatever packets it is given.
  pub updates_complete :
      (s : Dummy) (ws : List PktWrapper)
      → s.status ≡ counter_counting
      → s.loops_remaining ≡ 0
      → length s.nodes ≡ n
      → (length ws ≤ 64 → (updates s ws).status ≡ counter_counting)
        × (64 < length ws → (updates s ws).status ≡ counter_completed)
  unfolding updates
  updates_complete s [] c h e = (λ lt. c, λ lt. absurd (omega arith))
  updates_complete s (w ∷ ws) c h e =
      let f = all_found s w c h e in
      let d = countdown 63 (update id junk n s w).1 ws f.0 f.1 in
      (λ lt. d.0 (omega arith), λ lt. d.1 (omega arith))
