-- ===== src/Domain/Report/Worst.antt =====
-- internal/domain/report.go: what Worst and Count say of the checks.
use localclaw.Common.{
  ℕ, ◌+◌, ◌≡◌, refl, sym, ap, ◌∙◌, [], ◌∷◌, arith, if◌then◌else◌, ◌==◌, string_eq, nat_eq, ltb,
  length,
}
use localclaw.Domain.Report.{
  Status, pass, warn, fail, status_eq, rank, Check, Report, worst_from, worst, count_from, count,
}

count_from_add : (s : Status) (n : ℕ) (r : Report) → count_from s n r ≡ n + count_from s 0 r
unfolding count_from
count_from_add s n [] = omega arith
count_from_add s n (c ∷ cs) =
    ground (arith, count_from_add s (n + 1) cs, count_from_add s n cs, count_from_add s 1 cs)

count-cons :
    (s : Status) (c : Check) (cs : Report)
    → count s (c ∷ cs) ≡ (if c.status == s then 1 else 0) + count s cs
unfolding count
count-cons s c cs = ground (arith, count_from_add s 1 cs)

-- The status that the counts give.
abbrev pub verdict : Report → Status
verdict r = if ltb 0 (count fail r) then fail else if ltb 0 (count warn r) then warn else pass

abbrev worse : Status → Status → Status
worse a b = if ltb (rank a) (rank b) then b else a

verdict-cons : (c : Check) (cs : Report) → verdict (c ∷ cs) ≡ worse c.status (verdict cs)
unfolding status_eq
verdict-cons c cs = ground (arith, count-cons fail c cs, count-cons warn c cs)

worse_assoc : (a b c : Status) → worse (worse a b) c ≡ worse a (worse b c)
worse_assoc a b c = ground arith

worst_from-eq : (w : Status) (r : Report) → worst_from w r ≡ worse w (verdict r)
unfolding worst_from count count_from
worst_from-eq pass [] = refl
worst_from-eq warn [] = refl
worst_from-eq fail [] = refl
worst_from-eq w (c ∷ cs) =
    worst_from-eq (worse w c.status) cs
    ∙ worse_assoc w c.status (verdict cs)
    ∙ ap (worse w) (sym (verdict-cons c cs))

-- The worst status of a report is Fail if a check has failed, else Warn if a check warns, else Pass.
pub worst-verdict : (r : Report) → worst r ≡ verdict r
unfolding worst
worst-verdict r = worst_from-eq pass r ∙ ground arith

-- The three counts of a report add up to its checks.
pub count_total : (r : Report) → count pass r + count warn r + count fail r ≡ length r
count_total [] = unfold count count_from in omega arith
count_total (c ∷ cs) =
    ground (arith, count-cons pass c cs, count-cons warn c cs, count-cons fail c cs, count_total cs)
