-- ===== src/Boot/Pages.antt =====
-- The frames of kernel/src/buddy.c after the replay of the registered regions.
use osc.Common.{
  ℕ, ◌+◌, ◌/◌, ◌%◌, ◌^◌, ◌≤◌, ◌<◌, ◌≡◌, ◌⊎◌, inl, inr, refl, sym, arith, List, [], ◌∷◌, ◌∙◌,
}
use osc.Common.Int.{ℤ}
use osc.Common.All.{All}
use osc.Buddy.{
  page_size, Buddy, frame_free_part, frame_reserved, buddy_init, buddy_reserve,
  buddy_build_free_lists,
}
use osc.Buddy.Alloc.{IsFreeFrame}
use osc.Buddy.Fill.{fill-inside}
use osc.Buddy.Inv.{max_pages, IsValid}
use osc.Buddy.Build.{IsRaw, buddy_build_free_lists_lem}
use osc.Buddy.Reserve.{Overlaps, buddy_reserve_exact, buddy_init-IsRaw, buddy_reserve-IsRaw}
use osc.Startup.{Region, Startup, replay}
use osc.Kmalloc.{kmalloc_init}
use osc.Kmalloc.Inv.{Inv}
use osc.Kmalloc.Init.{kmalloc_init-Inv}
use osc.Boot.{start_allocators}
use osc.Startup.Sort.{IsRegion}
use osc.Boot.Regions.{Clear, IsFit}

overlapping : (base i : ℕ) (r : Region) → Overlaps base r.0 r.1 i → ¬ Clear base i r
overlapping base i r o c = elim c [ inl h ↦ omega arith | inr h ↦ omega arith ]

buddy_reserve-same :
    (start end_addr : ℕ) (b : Buddy)
    → ((buddy_reserve start end_addr b).base ≡ b.base)
      × ((buddy_reserve start end_addr b).total_pages ≡ b.total_pages)
      × ((buddy_reserve start end_addr b).limit ≡ b.limit)
unfolding buddy_reserve
buddy_reserve-same start end_addr b = ground arith

replay-IsRaw :
    (rs : List Region) (b : Buddy)
    → IsRaw b
    → IsRaw (replay rs b)
      × ((replay rs b).base ≡ b.base)
      × ((replay rs b).total_pages ≡ b.total_pages)
unfolding replay
replay-IsRaw [] b raw = (raw, refl, refl)
replay-IsRaw (r ∷ rs) b raw =
    let same = buddy_reserve-same r.0 r.1 b in
    let rest = replay-IsRaw rs (buddy_reserve r.0 r.1 b) (buddy_reserve-IsRaw r.0 r.1 b raw) in
    (rest.0, rest.1 ∙ same.0, rest.2 ∙ same.1)

-- A frame is reserved afterwards exactly if it was before or its page meets a region.
replay_lem :
    (base limit total : ℕ) (rs : List Region) (b : Buddy) (i : ℕ)
    → b.base ≡ base
    → b.limit ≡ limit
    → b.total_pages ≡ total
    → IsRaw b
    → base % page_size ≡ 0
    → limit + page_size < 2 ^ 64
    → All (IsRegion base limit) rs
    → i < total
    → let f = (replay rs b).frames.frame i in
      ((f ≡ frame_reserved) × ((b.frames.frame i ≡ frame_reserved) ⊎ (¬ All (Clear base i) rs)))
      ⊎ ((f ≡ b.frames.frame i) × All (Clear base i) rs)
unfolding replay
replay_lem base limit total [] b i eb el et raw al lim h lt = inr (refl, tt)
replay_lem base limit total (r ∷ rs) b i eb el et raw al lim h lt =
    let same = buddy_reserve-same r.0 r.1 b in
    let rest =
      replay_lem base limit total rs (buddy_reserve r.0 r.1 b) i (same.0 ∙ eb) (same.2 ∙ el)
        (same.1 ∙ et) (buddy_reserve-IsRaw r.0 r.1 b raw) al lim h.1 lt in
    elim (buddy_reserve_exact r.0 r.1 b i (omega (arith, eb)) raw.room raw.limit_lt h.0.1
      (omega (arith, h.0)) (omega (arith, et))) [
        | inl (o, e) ↦
            let met : ¬ All (Clear base i) (r ∷ rs) =
              λ c. overlapping base i r (omega (arith, o, eb)) c.0 in
            elim rest [ inl (f, g) ↦ inl (f, inr met) | inr (f, c) ↦ inl (f ∙ e, inr met) ]
        | inr (a, e) ↦
            let clear : Clear base i r = elim a [
              | inl g ↦ inl (omega (arith, eb))
              | inr g ↦ inr (omega (arith, eb))
            ] in
            elim rest [
              | inl (f, inl was) ↦ inl (f, inl (sym e ∙ was))
              | inl (f, inr met) ↦ inl (f, inr (λ c. met c.1))
              | inr (f, c) ↦ inr (f ∙ e, (clear, c))
            ]
      ]

kmalloc_init-Inv-count :
    (b : Buddy) (n : ℕ) (ext : ℕ → ℤ)
    → n ≡ b.total_pages
    → IsValid b
    → b.base % page_size ≡ 0
    → Inv (kmalloc_init b n ext) (λ _. [])
kmalloc_init-Inv-count b n ext e v al = rw e (kmalloc_init-Inv b ext v al)

free_reserved : {v : ℤ} → v ≡ frame_free_part → v ≡ frame_reserved → ⊥
free_reserved e f = cc

-- The allocators start with their invariants, and the reserved pages are those that meet a region
-- registered; all others are free.
pub start_allocators_lem :
    (base size : ℕ) (ext ext' : ℕ → ℤ) (s : Startup)
    → IsFit s
    → s.mem_base ≡ base
    → s.mem_end ≡ base + size
    → 0 < base
    → base % page_size ≡ 0
    → base + size + page_size < 2 ^ 64
    → size / page_size ≤ max_pages
    → let k = start_allocators (base, size) ext ext' s in
      Inv k (λ _. [])
      × ((i : ℕ)
          → i < size / page_size
          → ((k.buddy.frames.frame i ≡ frame_reserved) × (¬ All (Clear base i) s.reserves))
            ⊎ (IsFreeFrame (k.buddy.frames.frame i) × All (Clear base i) s.reserves))
unfolding start_allocators buddy_init kmalloc_init buddy_build_free_lists
start_allocators_lem base size ext ext' s fit eb ee pos al lim few =
    let total = size / page_size in
    let b = buddy_init base size total ext in
    let raw = buddy_init-IsRaw base size total ext pos (omega arith) (omega arith) few in
    let r = replay-IsRaw s.reserves b raw in
    let built = buddy_build_free_lists_lem (replay s.reserves b) r.0 in
    let regions : All (IsRegion base (base + size)) s.reserves = rw (eb, ee) at fit.regions in
    (
      kmalloc_init-Inv-count (buddy_build_free_lists (replay s.reserves b)) total ext' (sym r.2)
          built.0 (omega (arith, r.1)),
      λ i lt.
          let free = fill-inside total 0 frame_free_part ext i (omega arith) (omega arith) in
          let replayed =
            replay_lem base (base + size) total s.reserves b i refl (omega arith) refl raw al lim
              regions lt in
          elim (built.1 i (omega (arith, r.2))) [
            | inl (was, now) ↦ elim replayed [
              | inl (f, inl before) ↦ absurd (free_reserved free before)
              | inl (f, inr met) ↦ inl (now, met)
              | inr (f, c) ↦ absurd (free_reserved free (sym f ∙ was))
            ]
            | inr (was, now) ↦ elim replayed [
              | inl (f, g) ↦ absurd (free_reserved was f)
              | inr (f, c) ↦ inr (now, c)
            ]
          ],
    )
