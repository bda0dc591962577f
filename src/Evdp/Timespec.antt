-- ===== src/Evdp/Timespec.antt =====
-- struct timespec and the macros of include/nebase/time.h.
use nebase.Base.{ℕ, ◌+◌, ◌-◌, ◌==◌, ltb, leb, Bool, if◌then◌else◌}

pub record Timespec : Type 0 where
  pub tv_sec : ℕ
  pub tv_nsec : ℕ

-- neb_timespeccmp(a, b, >), and the order of evdp_timer_rbtree_cmp_node.
abbrev pub is_after : Timespec → Timespec → Bool
is_after a b = if a.tv_sec == b.tv_sec then ltb b.tv_nsec a.tv_nsec else ltb b.tv_sec a.tv_sec

abbrev pub is_same : Timespec → Timespec → Bool
is_same a b = if a.tv_sec == b.tv_sec then a.tv_nsec == b.tv_nsec else a.tv_sec == b.tv_sec

unfoldable pub timespecadd : Timespec → Timespec → Timespec
timespecadd a b =
    let sec = a.tv_sec + b.tv_sec in
    let nsec = a.tv_nsec + b.tv_nsec in
    if leb 1000000000 nsec
    then record { tv_sec = sec + 1; tv_nsec = nsec - 1000000000 }
    else record { tv_sec = sec; tv_nsec = nsec }

-- Where `b` is not after `a`; tv_nsec is brought above 0 before it is compared with 0.
unfoldable pub timespecsub : Timespec → Timespec → Timespec
timespecsub a b =
    let sec = a.tv_sec - b.tv_sec in
    if ltb a.tv_nsec b.tv_nsec
    then record { tv_sec = sec - 1; tv_nsec = a.tv_nsec + 1000000000 - b.tv_nsec }
    else record { tv_sec = sec; tv_nsec = a.tv_nsec - b.tv_nsec }
