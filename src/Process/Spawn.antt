-- ===== src/Process/Spawn.antt =====
-- `thread_spawn_user` and `plant_initial_frame` of kernel/src/sched.c. What the archive holds under the path
-- is given, none if there is no archive or no such file; `ss` is the CSR sstatus.
use osc.Common.{
  ℕ, ◌+◌, ◌-◌, ◌≡◌, refl, ◌∙◌, arith, true, false, Option, none, some, ◌==◌, if◌then◌else◌, u64,
  update,
}
use osc.Kmalloc.{kmalloc, kfree}
use osc.Sched.{
  TrapFrame, zero_frame, set_thread, thread_alloc_bare, thread_enqueue_ready, add_child, align_16,
}
use osc.Signal.{bit_set, set_bit, clear_bit}
use osc.Signal.Bits.{bit-set_bit, bit-set_bit-ne, bit-clear_bit, bit-clear_bit-ne}
use osc.Utils.{mem_cpy}
use osc.Process.{Machine, sizeof_trap_frame}
use osc.Process.Image.{user_stack_size}

-- SPP is bit 8, SPIE bit 5 and SIE bit 1.
unfoldable pub user_sstatus : ℕ → ℕ
user_sstatus ss = set_bit 5 (clear_bit 1 (clear_bit 8 ss))

unfoldable pub initial_frame : ℕ → ℕ → ℕ → ℕ → TrapFrame
initial_frame t entry user_sp ss = record zero_frame {
  sepc = entry;
  sp = user_sp;
  tp = t;
  sstatus = user_sstatus ss;
}

-- The address of the frame, and the machine with the frame in place.
unfoldable pub plant_initial_frame : ℕ → ℕ → ℕ → ℕ → Machine → ℕ × Machine
plant_initial_frame t entry user_sp ss m =
    let v = m.sched.threads t in
    let top = align_16 (u64 (v.kstack_base + v.kstack_size)) in
    let tf = top - sizeof_trap_frame in
    (tf, record m { frames = update m.frames tf (initial_frame t entry user_sp ss) })

-- With the memory for the image at hand.
unfoldable pub start_user : ℕ → ℕ → ℕ → ℕ → ℕ → ℕ → Machine → Machine
start_user bootstrap t image src sz ss m =
    let total = u64 (sz + user_stack_size) in
    let v = m.sched.threads t in
    let s₁ =
      set_thread t (record v { image_size = sz; total_size = total; image_base = image }) m.sched in
    let m₁ : Machine = record m { sched = s₁; memory = mem_cpy image src sz m.memory } in
    let (tf, m₂) = plant_initial_frame t image (align_16 (u64 (image + total))) ss m₁ in
    let w = m₂.sched.threads t in
    let s₂ = set_thread t (record w { ctx_sp = tf; ctx_ra = bootstrap }) m₂.sched in
    record m₂ { sched = thread_enqueue_ready t (add_child t s₂) }

-- The thread, 0 if there is no file or no memory.
unfoldable pub thread_spawn_user : ℕ → ℕ → Option (ℕ × ℕ) → Machine → ℕ × Machine
thread_spawn_user bootstrap ss none m = (0, m)
thread_spawn_user bootstrap ss (some (src, sz)) m =
    let (t, s₁) = thread_alloc_bare m.sched in
    let (image, heap) = kmalloc (u64 (sz + user_stack_size)) s₁.heap in
    let undone = kfree t (kfree (s₁.threads t).kstack_base heap) in
    let m₁ : Machine = record m { sched = record s₁ { heap = heap } } in
    if t == 0
    then (0, record m { sched = s₁ })
    else if image == 0
    then (0, record m { sched = record s₁ { heap = undone } })
    else (t, start_user bootstrap t image src sz ss m₁)

-- The frame holds the entry, the stack pointer and the thread; in its sstatus SPP and SIE are clear
-- and SPIE is set, whatever the CSR holds.
pub initial_frame_lem :
    (t entry user_sp ss : ℕ)
    → let f = initial_frame t entry user_sp ss in
      (f.sepc ≡ entry)
      × (f.sp ≡ user_sp)
      × (f.tp ≡ t)
      × (bit_set 8 f.sstatus ≡ false)
      × (bit_set 1 f.sstatus ≡ false)
      × (bit_set 5 f.sstatus ≡ true)
unfolding initial_frame user_sstatus
initial_frame_lem t entry user_sp ss = (
  refl,
  refl,
  refl,
  bit-set_bit-ne 5 8 (clear_bit 1 (clear_bit 8 ss)) (λ e. omega (arith, e))
      ∙ bit-clear_bit-ne 1 8 (clear_bit 8 ss) (λ e. omega (arith, e))
      ∙ bit-clear_bit 8 ss,
  bit-set_bit-ne 5 1 (clear_bit 1 (clear_bit 8 ss)) (λ e. omega (arith, e))
      ∙ bit-clear_bit 1 (clear_bit 8 ss),
  bit-set_bit 5 (clear_bit 1 (clear_bit 8 ss)),
)
