-- ===== src/Tests/Process.antt =====
-- The set-up of the operator.
use libvirt_operator.Prelude.{[], none, ◌≡◌, ◌⊎◌}
use libvirt_operator.Cmd.{Platform, start, default_flags, logger_of, run_operator, or_exit}
use libvirt_operator.Cmd.Order.{steps, set_up_plan}
use libvirt_operator.Cmd.Start.{Succeeds, Stopped, run_operator-cases}

-- A platform on which everything works.
abbrev working : Platform
working = record {
  failure = λ log s. none;
  namespace_file = "operators";
  new_auth_store = 0;
  new_host_store = 1;
}

run_operator-cases_example :
    (Succeeds working [] (set_up_plan working default_flags)
      × (run_operator working default_flags []
          ≡ or_exit working "failed to start manager"
              (start (logger_of default_flags))
              (steps (set_up_plan working default_flags))))
    ⊎ Stopped working (set_up_plan working default_flags) [] (run_operator working default_flags [])
run_operator-cases_example = run_operator-cases working default_flags
