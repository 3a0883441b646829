-- ===== src/Process/Fork.antt =====
-- `sys_fork` of kernel/src/syscall.c: what the child starts with.
use osc.Common.{
  ℕ, ◌+◌, ◌-◌, ◌^◌, ◌≤◌, ◌<◌, ◌≡◌, ◌≢◌, refl, ap, ◌∙◌, sym, arith, false, [], ◌∷◌, ◌++◌, update,
  update_self, update-ne, u64,
}
use osc.Sched.{ready, align_16, TrapFrame, Thread, thread_enqueue_ready}
use osc.Process.{Machine, sizeof_trap_frame, child_frame, start_child}

-- The child's frame is that of the parent, with result 0, the child's own thread pointer, and a stack
-- pointer that stands in the child's image where the parent's stands in its own.
pub child_frame_lem :
    (ch child_image par_image : ℕ) (tf : TrapFrame)
    → par_image ≤ tf.sp
    → tf.sp < 2 ^ 64
    → child_image + (tf.sp - par_image) < 2 ^ 64
    → child_frame ch child_image par_image tf
      ≡ record tf { a0 = 0; sp = child_image + (tf.sp - par_image); tp = ch }
unfolding child_frame
child_frame_lem ch child_image par_image tf h k l =
    ap {A = ℕ} (λ v. record tf { a0 = 0; sp = v; tp = ch }) (omega (arith, h, k, l))

module _ (bootstrap ch image : ℕ) (tf : TrapFrame) (m : Machine) where
  abbrev par : ℕ
  par = m.sched.current

  abbrev frame_at : ℕ
  frame_at =
      align_16 (u64 ((m.sched.threads ch).kstack_base + (m.sched.threads ch).kstack_size))
      - sizeof_trap_frame

  -- The child as it is started.
  abbrev child : Thread
  child = record (m.sched.threads ch) {
    image_size = (m.sched.threads par).image_size;
    total_size = (m.sched.threads par).total_size;
    image_base = image;
    ctx_sp = frame_at;
    ctx_ra = bootstrap;
    sig = record (m.sched.threads ch).sig {
      handlers = (m.sched.threads par).sig.handlers;
      pending = 0;
      in_handler = false;
      sigstack_base = 0;
    };
    parent = par;
  }

  -- The threads once the child is filled in, and once it is linked.
  abbrev filled : ℕ → Thread
  filled = update m.sched.threads ch child

  abbrev linked : ℕ → Thread
  linked = update filled par (record (filled par) { children = (filled par).children ++ (ch ∷ []) })

  abbrev started : Machine
  started = start_child bootstrap ch image tf m

  child_eq : par ≢ ch → started.sched.threads ch ≡ record child { state = ready }
  unfolding start_child thread_enqueue_ready
  child_eq n =
      update_self linked ch (record (linked ch) { state = ready })
      ∙ ap {A = Thread} (λ v. record v { state = ready })
          (update-ne filled par ch
              (record (filled par) { children = (filled par).children ++ (ch ∷ []) }) n
            ∙ update_self m.sched.threads ch child)

  parent_eq :
      par ≢ ch → (started.sched.threads par).children ≡ (m.sched.threads par).children ++ (ch ∷ [])
  unfolding start_child thread_enqueue_ready
  parent_eq n =
      ap (λ v. v.children)
        (update-ne linked ch par (record (linked ch) { state = ready }) (λ e. n (sym e))
          ∙ update_self filled par
              (record (filled par) { children = (filled par).children ++ (ch ∷ []) }))
      ∙ ap (λ v. v.children ++ (ch ∷ [])) (update-ne m.sched.threads ch par child (λ e. n (sym e)))

  frame_eq : started.frames frame_at ≡ child_frame ch image (m.sched.threads par).image_base tf
  unfolding start_child
  frame_eq = update_self m.frames frame_at _

  queue_eq : started.sched.runq ≡ m.sched.runq ++ (ch ∷ [])
  unfolding start_child thread_enqueue_ready
  queue_eq = refl

-- A child that is not its own parent starts ready and last in the run queue, with the parent's
-- handlers and nothing pending, as a child of the caller, and its saved stack pointer is the address
-- of its frame.
pub start_child_lem :
    (bootstrap ch image : ℕ) (tf : TrapFrame) (m : Machine)
    → m.sched.current ≢ ch
    → let r = start_child bootstrap ch image tf m in
      let v = r.sched.threads ch in
      let p = m.sched.threads m.sched.current in
      (v.state ≡ ready)
      × (r.sched.runq ≡ m.sched.runq ++ (ch ∷ []))
      × (v.parent ≡ m.sched.current)
      × (v.image_base ≡ image)
      × (v.sig.handlers ≡ p.sig.handlers)
      × (v.sig.pending ≡ 0)
      × ((r.sched.threads m.sched.current).children ≡ p.children ++ (ch ∷ []))
      × (r.frames v.ctx_sp ≡ child_frame ch image p.image_base tf)
start_child_lem bootstrap ch image tf m n = (
  ap (λ v. v.state) e,
  queue_eq bootstrap ch image tf m,
  ap (λ v. v.parent) e,
  ap (λ v. v.image_base) e,
  ap (λ v. v.sig.handlers) e,
  ap (λ v. v.sig.pending) e,
  parent_eq bootstrap ch image tf m n,
  ap (λ v. (start_child bootstrap ch image tf m).frames v.ctx_sp) e
      ∙ frame_eq bootstrap ch image tf m,
)
  where
    e :
        (start_child bootstrap ch image tf m).sched.threads ch
        ≡ record (child bootstrap ch image tf m) { state = ready }
    e = child_eq bootstrap ch image tf m n
