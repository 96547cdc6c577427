-- ===== src/Server/Children/Tests.antt =====
-- Two managed processes, one of which has ended.
use easytidy.Prelude.{◌==◌, ◌≡◌, refl, some, [], ◌∷◌, ◌++◌, arith}
use easytidy.Lists.{count}
use easytidy.Text.{codes}
use easytidy.Server.{get}
use easytidy.Server.Reader.{concat}
use easytidy.Server.Ring.{last}
use easytidy.Server.Children.{
  ChildInfo, Children, ProcessStatus, captures, apps_logs, apps_ps, app_log_max,
}
use easytidy.Server.Children.Table.{apps_logs-captures, IsSorted, apps_ps-recent}

abbrev child : ChildInfo
child = record {
  kind = codes "entry";
  name = codes "top";
  cmd = codes "top";
  started_at = 5;
  status = ProcessStatus.running;
  stdio = [];
}

abbrev table : Children
table =
    (31, child)
    ∷ (30, record child { started_at = 2; status = ProcessStatus.exited (some 0) 9 })
    ∷ []

logs_example :
    apps_logs (captures table 31 ((1 ∷ []) ∷ (2 ∷ []) ∷ [])) 31
    ≡ last app_log_max ([] ++ concat ((1 ∷ []) ∷ (2 ∷ []) ∷ []))
unfolding get
logs_example = apps_logs-captures table 31 ((1 ∷ []) ∷ (2 ∷ []) ∷ []) child refl (omega arith)

-- The process that has ended is left out 200 seconds later.
ps_example :
    (count (λ p. p.pid == 30) (apps_ps table 200000).0 ≡ 0)
    × IsSorted (apps_ps table 200000).0
    × (count (λ e. e.0 == 31) (apps_ps table 200000).1 ≡ 1)
ps_example = apps_ps-recent table 200000 (λ p. p.pid == 30) (λ e. e.0 == 31)
