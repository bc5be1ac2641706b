-- ===== src/Pmm/Tests.antt =====
-- The physical memory manager at concrete inputs: memories whose low megabyte is taken.
use void_frame.Prelude.{
  ℕ, ◌+◌, ◌*◌, ◌/◌, ◌%◌, ◌≤◌, ◌≡◌, refl, ap, ◌↔◌, ◌⊎◌, Bool, true, false, Option, some, List, [],
  ◌∷◌, ◌++◌, ◌==◌, arith, length, get_or, replicate, get_or-beyond, every, every-apply,
}
use void_frame.Pmm.Word.{Word, word_bits, ones, zero_word, popcount, is_ones, ctz, word_not}
use void_frame.Pmm.State.{Pmm, word_at, page_size, find_first_free_bit}
use void_frame.Pmm.Page.{
  alloc_page, free_page, watch_memory, clamp_hint, search_page, search_up, after_search_up,
  commit_page,
}
use void_frame.Pmm.Range.{range_is_free, range_set_used, range_set_free}
use void_frame.Pmm.Init.{MmapEntry, BootImage, memory_init}
use void_frame.Pmm.InitLaws.{Initialises, memory_init_lem}
use void_frame.Pmm.Huge.{pages_per_huge, alloc_huge_pages, free_huge_pages}
use void_frame.Pmm.Bitmap.{IsValid, page_used, popcount_all}
use void_frame.Pmm.Alloc.{Allocates, OutOfMemory, alloc_page_lem}
use void_frame.Pmm.Free.{
  IsReturnable, GivesPage, AcceptsPage, free_page_lem, free_page-free_page, free_page-alloc_page,
}
use void_frame.Pmm.Sets.{Sets}
use void_frame.Pmm.Runs.{range_set_used-Sets, range_set_free-Sets}
use void_frame.Pmm.FreeRuns.{AllFree, range_is_free-AllFree}
use void_frame.Pmm.HugeLaws.{AllocatesRun, IsRun, alloc_huge_pages_lem, free_huge_pages_lem}

-- `n` words of memory above the low megabyte, all of them free.
abbrev memory : ℕ → Pmm
memory n = record {
  page_bitmap = replicate 4 ones ++ replicate n zero_word;
  has_bitmap = true;
  bitmap_words = 4 + n;
  total_pages = (4 + n) * 64;
  used_pages = 256;
  next_free_hint = 256;
  low_memory_watermark = 0;
  allocation_count = 0;
  free_count = 0;
  allocation_failures = 0;
  huge_pages_allocated = 0;
}

abbrev small_memory : Pmm
small_memory = memory 1

abbrev large_memory : Pmm
large_memory = memory 12

word_has_width : List Word → ℕ → Bool
word_has_width bm w = length (word_at bm w) == word_bits

beyond_last : (bm : List Word) (p : ℕ) → length bm * 64 ≤ p → page_used bm p ≡ false
beyond_last bm p h = ap (λ w. get_or w (p % 64) false) (get_or-beyond bm (p / 64) _ (omega arith))

small_memory-IsValid : IsValid small_memory
unfolding word_has_width every popcount_all popcount
small_memory-IsValid = record {
  mapped = refl;
  core = record {
    size = refl;
    rounded = refl;
    widths = λ w h.
        let e = every-apply (word_has_width small_memory.page_bitmap) 5 w h refl in ground arith;
    counted = refl;
    limit = omega arith;
    nonempty = omega arith;
    beyond = beyond_last small_memory.page_bitmap;
  };
}

large_memory-IsValid : IsValid large_memory
unfolding word_has_width every popcount_all popcount
large_memory-IsValid = record {
  mapped = refl;
  core = record {
    size = refl;
    rounded = refl;
    widths = λ w h.
        let e = every-apply (word_has_width large_memory.page_bitmap) 16 w h refl in ground arith;
    counted = refl;
    limit = omega arith;
    nonempty = omega arith;
    beyond = beyond_last large_memory.page_bitmap;
  };
}

abbrev after_alloc : Option ℕ × Pmm
after_alloc = alloc_page small_memory

first_page : after_alloc.0 ≡ some 0x100000
unfolding alloc_page watch_memory clamp_hint search_page search_up after_search_up commit_page
    find_first_free_bit is_ones ctz word_not
first_page = refl

alloc_page_example : Allocates small_memory (OutOfMemory small_memory) (alloc_page small_memory)
alloc_page_example = alloc_page_lem small_memory small_memory-IsValid

free_page_example :
    ((p : ℕ) × (some (255 * 4096) ≡ some (p * page_size))
      × IsReturnable small_memory p
      × GivesPage small_memory (free_page small_memory (some (255 * 4096))) p)
    ⊎ ((¬ AcceptsPage small_memory (some (255 * 4096)))
        × (free_page small_memory (some (255 * 4096)) ≡ small_memory))
free_page_example = free_page_lem small_memory (some (255 * 4096)) small_memory-IsValid

free_page-free_page_example :
    free_page (free_page small_memory (some 4096)) (some 4096) ≡ free_page small_memory (some 4096)
free_page-free_page_example = free_page-free_page small_memory (some 4096) small_memory-IsValid

free_page-alloc_page_example :
    let u = free_page after_alloc.1 (some 0x100000) in
    (u.page_bitmap ≡ small_memory.page_bitmap)
    × (u.used_pages ≡ small_memory.used_pages)
    × IsValid u
free_page-alloc_page_example =
    free_page-alloc_page small_memory after_alloc.1 0x100000 small_memory-IsValid
      (ap (λ a. (a, after_alloc.1)) first_page)

range_set_used-Sets_example :
    Sets true 300 (300 + 100) large_memory (range_set_used large_memory 300 100)
range_set_used-Sets_example =
    range_set_used-Sets large_memory-IsValid 300 100 (omega arith) (omega arith)

range_set_free-Sets_example :
    Sets false 200 (200 + 90) large_memory (range_set_free large_memory 200 90)
range_set_free-Sets_example =
    range_set_free-Sets large_memory-IsValid 200 90 (omega arith) (omega arith)

range_is_free-AllFree_example :
    (range_is_free large_memory 250 100 ≡ true) ↔ AllFree large_memory 250 (250 + 100)
range_is_free-AllFree_example =
    range_is_free-AllFree large_memory-IsValid 250 100 (omega arith) (omega arith)

alloc_huge_pages_example :
    AllocatesRun large_memory (1 * pages_per_huge) (alloc_huge_pages large_memory 1)
alloc_huge_pages_example =
    alloc_huge_pages_lem large_memory 1 large_memory-IsValid (omega arith) (omega arith)

free_huge_pages_example :
    let t = free_huge_pages large_memory (some 0x200000) 1 in
    ((q : ℕ) × IsRun large_memory 0x200000 1 q
      × Sets false q (q + 1 * pages_per_huge) large_memory t)
    ⊎ (((q : ℕ) → ¬ IsRun large_memory 0x200000 1 q) × (t ≡ large_memory))
free_huge_pages_example =
    free_huge_pages_lem large_memory 0x200000 1 large_memory-IsValid (omega arith) (omega arith)
      (omega arith)

-- A memory of 32 MB with a reserved entry, and a kernel at 2 MB.
abbrev memory_map : List MmapEntry
memory_map =
    record { addr = 0; len = 0x2000000; type = 1 }
    ∷ record { addr = 0x9FC00; len = 0x400; type = 2 }
    ∷ []

abbrev boot : BootImage
boot = record {
  kernel_start = 0x200000;
  kernel_end = 0x280000;
  info_addr = 0x300000;
  info_size = 900;
}

memory_init_example :
    Initialises small_memory memory_map boot (memory_init small_memory memory_map boot)
memory_init_example = memory_init_lem small_memory memory_map boot (omega arith, (omega arith, tt))
