-- ===== src/Eevdf/Nice.antt =====
-- The nice levels of kernel/sched/EEVDF.c, with the bounds of EEVDF.h.
use void_frame.Prelude.{ℕ, ◌+◌, ◌-◌, List, [], ◌∷◌, ltb, if◌then◌else◌, get_or}

pub data ℤ : Type 0 where
  pos : ℕ → ℤ
  negsuc : ℕ → ℤ

-- EEVDF_MIN_NICE and EEVDF_MAX_NICE.
abbrev pub min_nice : ℤ
min_nice = negsuc 19

abbrev pub max_nice : ℤ
max_nice = pos 19

abbrev pub clamp_nice : ℤ → ℤ
clamp_nice (pos n) = if ltb 19 n then max_nice else pos n
clamp_nice (negsuc n) = if ltb 19 n then min_nice else negsuc n

-- nice - EEVDF_MIN_NICE
abbrev pub nice_index : ℤ → ℕ
nice_index (pos n) = n + 20
nice_index (negsuc n) = 19 - n

abbrev pub eevdf_nice_to_weight : List ℕ
eevdf_nice_to_weight =
    88761 ∷ 71755 ∷ 56483 ∷ 46273 ∷ 36291 ∷ 29154 ∷ 23254 ∷ 18705 ∷ 14949 ∷ 11916 ∷ 9548 ∷ 7620
    ∷ 6100 ∷ 4904 ∷ 3906 ∷ 3121 ∷ 2501 ∷ 1991 ∷ 1586 ∷ 1277 ∷ 1024 ∷ 820 ∷ 655 ∷ 526 ∷ 423 ∷ 335
    ∷ 272 ∷ 215 ∷ 172 ∷ 137 ∷ 110 ∷ 87 ∷ 70 ∷ 56 ∷ 45 ∷ 36 ∷ 29 ∷ 23 ∷ 18 ∷ 15 ∷ []

abbrev pub eevdf_nice_to_wmult : List ℕ
eevdf_nice_to_wmult =
    48388 ∷ 59856 ∷ 76040 ∷ 92818 ∷ 118348 ∷ 147320 ∷ 184698 ∷ 229616 ∷ 287308 ∷ 360437 ∷ 449829
    ∷ 563644 ∷ 704093 ∷ 875809 ∷ 1099582 ∷ 1376151 ∷ 1717300 ∷ 2157191 ∷ 2708050 ∷ 3363326 ∷ 4194304
    ∷ 5237765 ∷ 6557202 ∷ 8165337 ∷ 10153587 ∷ 12820798 ∷ 15790321 ∷ 19976592 ∷ 24970740 ∷ 31350126
    ∷ 39045157 ∷ 49367440 ∷ 61356676 ∷ 76695844 ∷ 95443717 ∷ 119304647 ∷ 148102320 ∷ 186737708
    ∷ 238609294 ∷ 286331153 ∷ []

unfoldable pub nice_to_weight : ℤ → ℕ
nice_to_weight nice = get_or eevdf_nice_to_weight (nice_index (clamp_nice nice)) 0

unfoldable pub nice_to_wmult : ℤ → ℕ
nice_to_wmult nice = get_or eevdf_nice_to_wmult (nice_index (clamp_nice nice)) 0
