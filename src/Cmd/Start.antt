-- ===== src/Cmd/Start.antt =====
-- When the manager is started.
use libvirt_operator.Prelude.{
  String, Bool, true, false, List, [], ◌∷◌, ◌++◌, any, ◌≡◌, ◌⊎◌, refl, ap, ◌∙◌, sym, arith, some,
  none, inl, inr, Option-cases,
}
use mathlib.Core.List.{append_assoc, append-nil}
use libvirt_operator.Outcome.{Error}
use libvirt_operator.Cmd.{
  Flags, Platform, Step, Exit, exits, or_exit, run_operator, logger_of, start,
}
use libvirt_operator.Cmd.Order.{
  Plan, steps, set_up_plan, carry_out, carry_out-last, run_operator-carry_out,
}

-- Whether a step starts the manager.
abbrev pub is_start : Step → Bool
is_start (start logger) = true
is_start _ = false

module _ (p : Platform) where
  -- Each step of a plan succeeds when those before it have been done.
  abbrev pub Succeeds : List Step → Plan → Type 0
  Succeeds log [] = Unit
  Succeeds log ((text, s) ∷ plan) = (p.failure log s ≡ none) × Succeeds (log ++ s ∷ []) plan

  -- A process that stopped with the first failing step of a plan, before any start.
  pub record Stopped (plan : Plan) (log : List Step) (run : Exit (Unit {0}) × List Step)
      : Type 0 where
    pub front : Plan
    pub back : Plan
    pub text : String
    pub failing : Step
    pub why : Error
    pub in_plan : plan ≡ front ++ (text, failing) ∷ back
    pub before : Succeeds log front
    pub fails : p.failure (log ++ steps front) failing ≡ some why
    pub result : run ≡ (exits text why, log ++ (steps front ++ failing ∷ []))
    pub unstarted : any is_start (steps front ++ failing ∷ []) ≡ false

  go_on :
      (text : String) (s : Step) (plan : Plan) (log : List Step)
      → p.failure log s ≡ none
      → carry_out p ((text, s) ∷ plan) log ≡ carry_out p plan (log ++ s ∷ [])
  unfolding carry_out or_exit
  go_on text s plan log h = ground (arith, h)

  stop :
      (text : String) (s : Step) (plan : Plan) (log : List Step) (e : Error)
      → p.failure log s ≡ some e
      → carry_out p ((text, s) ∷ plan) log ≡ (exits text e, log ++ s ∷ [])
  unfolding carry_out or_exit
  stop text s plan log e h = ground (arith, h)

  carry_out-cases :
      (xs : Plan) (text : String) (s : Step) (log : List Step)
      → any is_start (steps xs) ≡ false
      → (Succeeds log xs
          × (carry_out p (xs ++ (text, s) ∷ []) log ≡ or_exit p text s (log ++ steps xs)))
        ⊎ Stopped xs log (carry_out p (xs ++ (text, s) ∷ []) log)
  carry_out-cases [] text s log unstarted =
      inl (tt, carry_out-last p text s log ∙ ap (or_exit p text s) (sym (append-nil log)))
  carry_out-cases ((t, x) ∷ xs) text s log unstarted =
      let later = carry_out-cases xs text s (log ++ x ∷ []) (ground (arith, unstarted)) in
      elim (Option-cases (p.failure log x)) [
        | inl h ↦ elim later [
          | inl (succeed, run) ↦ inl (
            (h, succeed),
            go_on t x _ log h ∙ run ∙ ap (or_exit p text s) (append_assoc log (x ∷ []) (steps xs)),
          )
          | inr st ↦ inr (record {
            front = (t, x) ∷ st.front;
            back = st.back;
            text = st.text;
            failing = st.failing;
            why = st.why;
            in_plan = ap (◌∷◌ (t, x)) st.in_plan;
            before = (h, st.before);
            fails =
                ap (λ l. p.failure l st.failing) (sym (append_assoc log (x ∷ []) (steps st.front)))
                ∙ st.fails;
            result =
                go_on t x _ log h
                ∙ st.result
                ∙ ap (λ l. (exits st.text st.why, l)) (append_assoc log (x ∷ []) _);
            unstarted = ground (arith, unstarted, st.unstarted);
          })
        ]
        | inr (e, h) ↦ inr (record {
          front = [];
          back = xs;
          text = t;
          failing = x;
          why = e;
          in_plan = refl;
          before = tt;
          fails = ap (λ l. p.failure l x) (append-nil log) ∙ h;
          result = stop t x _ log e h;
          unstarted = ground (arith, unstarted);
        })
      ]

  -- Before the manager is started, every step of the set-up has succeeded, in its order: either all of
  -- them have, and the start is the step after them, or the process ends at the first that fails, with
  -- the message for that step and its error, and without a start.
  pub run_operator-cases :
      (f : Flags)
      → (Succeeds [] (set_up_plan p f)
          × (run_operator p f []
              ≡ or_exit p "failed to start manager"
                  (start (logger_of f))
                  (steps (set_up_plan p f))))
        ⊎ Stopped (set_up_plan p f) [] (run_operator p f [])
  run_operator-cases f = rw (run_operator-carry_out p f []) (
      carry_out-cases (set_up_plan p f) "failed to start manager" (start (logger_of f)) []
        (ground arith))
