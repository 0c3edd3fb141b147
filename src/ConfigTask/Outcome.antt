-- ===== src/ConfigTask/Outcome.antt =====
-- What holds all along a run of agentendpoint/config_task.go.
pub mod Ends
pub mod Whole
use osconfig.Base.{
  ℕ, suc, ◌+◌, ◌≡◌, refl, sym, ap, ◌∙◌, String, Bool, true, false, not, ◌&&◌, ◌||◌, Option, none,
  some, List, [], ◌∷◌, map, length, All, any, Member, All-Member, any-Member, is_empty, ◌==◌,
  ==_refl, if◌then◌else◌, if-split, inl, inr, Bool-cases, arith, Result, ok, err, panicked,
}
use osconfig.ConfigTask.{
  OutputState, validated, checked, post_checked, cleaned, ConfigResource, OsPolicy, PolicyResult,
  Res, ProgressState, started, applying_config, succeeded, failed, cancelled, Error, server_cancel,
  failure, continue, stop, Call, progress_sent, complete_sent, enforced, Env, Task,
}
use osconfig.ConfigTask.Apply.{logged, generate_base_results, run_policies}
use osconfig.ConfigTask.Loops.{
  Fine, Kept, Permitted, run_policies-Kept, post_check_state-Kept, cleanup_policies-Kept,
}
use osconfig.ConfigTask.Present.{
  has_resources, AllPresent, run_policies-present, cleanup_policies-ok, cleanup_policies-nil,
  post_check_state-present,
}
use osconfig.ConfigTask.Run.{
  post_check_state, cleanup_policies, report_completed_state, handle_error_state,
  report_continuing_state, apply_policies, apply, with_cleanup, proceed, run, run_apply_config,
}

-- The calls of `ReportTaskComplete` in a log.
abbrev pub completions : List Call → ℕ
completions [] = 0
completions (complete_sent o m rs ∷ log) = suc (completions log)
completions (_ ∷ log) = completions log

-- Is there a policy of this id, not in VALIDATION mode, with a resource of this id?
abbrev pub enforceable : List OsPolicy → String → String → Bool
enforceable ps p r =
    any
      (λ (q : OsPolicy).
        q.id == p && (not q.validation_mode && any (λ (x : ConfigResource). x.id == r) q.resources))
      ps

abbrev pub Justified : List OsPolicy → Call → Type 0
Justified ps (enforced p r) = enforceable ps p r ≡ true
Justified ps _ = Unit

-- What holds all along a run: the policies are those of the task, and the log is justified.
pub record Inv (ps : List OsPolicy) (n : ℕ) (s : Task) : Type 0 where
  pub same : s.os_policies ≡ ps
  pub sent : completions s.log ≡ n
  pub justified : All (Justified ps) s.log

pub Inv-Kept : (ps : List OsPolicy) (n : ℕ) → Kept (λ p r. enforceable ps p r ≡ true) (Inv ps n)
Inv-Kept ps n = record {
  by_call = after_call;
  by_tick = λ s i. record { same = i.same; sent = i.sent; justified = i.justified };
  by_mark = λ s i. record { same = i.same; sent = i.sent; justified = i.justified };
  by_policy = λ id s i. record { same = i.same; sent = i.sent; justified = i.justified };
  by_cleanup = λ p r e s i. record { same = i.same; sent = i.sent; justified = (tt, i.justified) };
}
  where
    after_call :
        (call : Call) (p r : String) (res : Res) (s : Task)
        → Fine (λ p r. enforceable ps p r ≡ true) call
        → Inv ps n s
        → Inv ps n (logged call p r res s)
    after_call (progress_sent x) p r res s fine i = absurd fine
    after_call (complete_sent o m rs) p r res s fine i = absurd fine
    after_call (enforced q x) p r res s fine i = record {
      same = i.same;
      sent = i.sent;
      justified = (fine, i.justified);
    }
    after_call (validated q x) p r res s fine i = record {
      same = i.same;
      sent = i.sent;
      justified = (tt, i.justified);
    }
    after_call (checked q x) p r res s fine i = record {
      same = i.same;
      sent = i.sent;
      justified = (tt, i.justified);
    }
    after_call (post_checked q x) p r res s fine i = record {
      same = i.same;
      sent = i.sent;
      justified = (tt, i.justified);
    }
    after_call (cleaned q x e) p r res s fine i = record {
      same = i.same;
      sent = i.sent;
      justified = (tt, i.justified);
    }

pub All-Permitted : (ps : List OsPolicy) → All (Permitted (λ p r. enforceable ps p r ≡ true)) ps
All-Permitted ps = All-Member ps (λ q in_ps enforces. All-Member q.resources (λ r in_q.
    any-Member _ q ps in_ps (
      ground (
        arith,
        enforces,
        ==_refl q.id,
        any-Member (λ (x : ConfigResource). x.id == r.id) r q.resources in_q (==_refl r.id),
      ))))
