-- ===== src/Cmd/Program/Exits.antt =====
-- When the program exits with status 0.
use flightsim.Prelude.{
  ℕ, ◌≡◌, ◌↔◌, ap, sym, ◌⊎◌, inl, inr, refl, List, [], ◌∷◌, Option, none, some, Bool-cases, arith,
}
use flightsim.Prelude.Bytes.{Bytes, codes, bytes_eq, bytes_eq_iff}
use mathlib.Core.Path.{subst}
use flightsim.Utils.Net.{System, usable, usable_ip}
use flightsim.Wisdom.{WisdomError}
use flightsim.Cmd.Modules.{all_modules}
use flightsim.Cmd.Select.Laws.{HasUnknown}
use flightsim.Cmd.Get.{GetError}
use flightsim.Cmd.Get.Accepts.{Accepted, run_get-Accepted}
use flightsim.Cmd.Table.{World, Environment}
use flightsim.Cmd.Table.Methods.{table_modules}
use flightsim.Cmd.Command.{
  Flags, Probe, RunError, Ran, names_to_run, exit_status, Called, finish, after_flags, dispatch,
  main,
}
use flightsim.Cmd.Command.Refused.{run_cmd_accepted}
use flightsim.Cmd.Program.{
  Libraries, families_of, get_error, get_cmd, run_error, ran_table, after_get_flags,
  after_run_flags, program,
}

-- A command ends well: without an error, or by a flag parser with the status 0.
abbrev EndsFine : Called → Type 0
EndsFine e = (e ≡ inl 0) ⊎ (e ≡ inr none)

exit_status-finish : (e : Called) → (exit_status (finish e) ≡ 0) ↔ EndsFine e
exit_status-finish (inl status) =
    (λ h. inl (ap inl h), λ h. elim h [ inl e ↦ cc e | inr e ↦ absurd (cc e) ])
exit_status-finish (inr none) = (λ h. inr refl, λ h. refl)
exit_status-finish (inr (some text)) =
    (λ h. absurd (omega (arith, h)), λ h. elim h [ inl e ↦ absurd (cc e) | inr e ↦ absurd (cc e) ])

module _ (version : Bytes) (get_cmd run_args : List Bytes → Called) where
  -- The three commands, and which of them end well.
  abbrev IsAccepted : Bytes → List Bytes → Type 0
  IsAccepted cmd args =
      ((cmd ≡ codes "get") × EndsFine (get_cmd args))
      ⊎ (((cmd ≡ codes "run") × EndsFine (run_args args)) ⊎ (cmd ≡ codes "version"))

  accepted_exit :
      (cmd : Bytes) (args : List Bytes)
      → IsAccepted cmd args
      → exit_status (dispatch version get_cmd run_args cmd args) ≡ 0
  unfolding bytes_eq
  accepted_exit cmd args (inl (e, n)) = rw e ((exit_status-finish (get_cmd args)).1 n)
  accepted_exit cmd args (inr (inl (e, n))) = rw e ((exit_status-finish (run_args args)).1 n)
  accepted_exit cmd args (inr (inr e)) = rw e refl

  dispatch-IsAccepted :
      (cmd : Bytes) (args : List Bytes)
      → exit_status (dispatch version get_cmd run_args cmd args) ≡ 0
      → IsAccepted cmd args
  dispatch-IsAccepted cmd args h = elim (Bool-cases (bytes_eq cmd (codes "get"))) [
    | inl got ↦ inl (
      (bytes_eq_iff cmd (codes "get")).0 got,
      (exit_status-finish (get_cmd args)).0 (rw got at h),
    )
    | inr not_get ↦ elim (Bool-cases (bytes_eq cmd (codes "run"))) [
      | inl ran ↦ inr (
          inl (
            (bytes_eq_iff cmd (codes "run")).0 ran,
            (exit_status-finish (run_args args)).0 (rw (not_get, ran) at h),
          ))
      | inr not_run ↦ elim (Bool-cases (bytes_eq cmd (codes "version"))) [
        | inl asked ↦ inr (inr ((bytes_eq_iff cmd (codes "version")).0 asked))
        | inr other ↦ absurd (omega (arith, rw (not_get, not_run, other) at h))
      ]
    ]
  ]

module _ {E : Type 0} (lib : Libraries E) where
  get_error-none : (e : Option (GetError (WisdomError E))) → (get_error lib e ≡ none) ↔ (e ≡ none)
  get_error-none none = (λ h. refl, λ h. refl)
  get_error-none (some e) = (λ h. absurd (cc h), λ h. absurd (cc h))

  run_error-none :
      {W F : Type 0} (r : RunError E ⊎ Ran W F)
      → (run_error lib r ≡ none) ↔ ((ran : Ran W F) × (r ≡ inr ran))
  run_error-none (inl e) = (λ h. absurd (cc h), λ h. absurd (cc h.1))
  run_error-none (inr ran) = (λ h. (ran, refl), λ h. refl)

  module _ {G : Type 0} (env : Environment G E) (system : System E) (probe : Probe E)
      (version : Bytes) (w : World G) where
    -- What the command `run` needs.
    abbrev CanRun : Flags → Type 0
    CanRun flags =
        ((ip : Option Bytes) × (usable_ip system flags.iface_name ≡ usable ip))
        × (HasUnknown (names_to_run all_modules flags.args) all_modules → ⊥)

    can_run :
        (flags : Flags)
        → ((ran : _) × (ran_table lib env system probe version w flags ≡ inr ran)) ↔ CanRun flags
    can_run flags =
        run_cmd_accepted all_modules (table_modules env) lib.ip_string probe flags system w

    -- What a flag parser reads is wanted, or it exits with the status 0.
    abbrev Reads : {A : Type 0} → (A → Type 0) → ℕ ⊎ A → Type 0
    Reads {A} P r = (r ≡ inl 0) ⊎ ((a : A) × (r ≡ inr a) × P a)

    get_ends :
        (r : ℕ ⊎ Bytes)
        → EndsFine (after_get_flags lib env system probe version w r)
          ↔ Reads (Accepted (families_of lib env system probe version w)) r
    get_ends (inl status) = (
      λ h. elim h [ inl e ↦ inl (ap inl (cc e)) | inr e ↦ absurd (cc e) ],
      λ h. elim h [ inl e ↦ inl (ap inl (cc e)) | inr (a, e, ok) ↦ absurd (cc e) ],
    )
    get_ends (inr to_get) =
        let accepted = run_get-Accepted (families_of lib env system probe version w) to_get in
        (
          λ h. elim h [
            | inl e ↦ absurd (cc e)
            | inr e ↦ inr (to_get, refl, accepted.0 ((get_error-none _).0 (cc e)))
          ],
          λ h. elim h [
            | inl e ↦ absurd (cc e)
            | inr (a, e, ok) ↦ inr (
                ap inr (
                  (get_error-none _).1 (
                    accepted.1 (
                      subst (Accepted (families_of lib env system probe version w)) (sym (cc e))
                        ok))))
          ],
        )

    run_ends :
        (r : ℕ ⊎ Flags)
        → EndsFine (after_run_flags lib env system probe version w r) ↔ Reads CanRun r
    run_ends (inl status) = (
      λ h. elim h [ inl e ↦ inl (ap inl (cc e)) | inr e ↦ absurd (cc e) ],
      λ h. elim h [ inl e ↦ inl (ap inl (cc e)) | inr (a, e, ok) ↦ absurd (cc e) ],
    )
    run_ends (inr flags) = (
      λ h. elim h [
        | inl e ↦ absurd (cc e)
        | inr e ↦ inr (flags, refl, (can_run flags).0 ((run_error-none _).0 (cc e)))
      ],
      λ h. elim h [
        | inl e ↦ absurd (cc e)
        | inr (a, e, ok) ↦ inr (
            ap inr (
              (run_error-none _).1
                ((can_run flags).1 (subst CanRun {x = a} {y = flags} (sym (cc e)) ok))))
      ],
    )

    -- Commands that end well.
    abbrev pub CommandEndsWell : List Bytes → Type 0
    CommandEndsWell [] = ⊥
    CommandEndsWell (cmd ∷ args) =
        ((cmd ≡ codes "get")
          × Reads (Accepted (families_of lib env system probe version w)) (lib.get_arg args))
        ⊎ (((cmd ≡ codes "run") × Reads CanRun (lib.run_flags args)) ⊎ (cmd ≡ codes "version"))

    -- Command lines that end well.
    abbrev pub EndsWell : List Bytes → Type 0
    EndsWell args = Reads CommandEndsWell (lib.root_flags args)

    -- Both directions of what the two commands need.
    command_ends :
        (cmd : Bytes) (args : List Bytes)
        → IsAccepted version
            (get_cmd lib env system probe version w)
            (λ run_args. after_run_flags lib env system probe version w (lib.run_flags run_args))
            cmd
            args
          ↔ CommandEndsWell (cmd ∷ args)
    command_ends cmd args = (
      λ h. elim h [
        | inl (e, n) ↦ inl (e, (get_ends (lib.get_arg args)).0 n)
        | inr (inl (e, n)) ↦ inr (inl (e, (run_ends (lib.run_flags args)).0 n))
        | inr (inr e) ↦ inr (inr e)
      ],
      λ h. elim h [
        | inl (e, n) ↦ inl (e, (get_ends (lib.get_arg args)).1 n)
        | inr (inl (e, n)) ↦ inr (inl (e, (run_ends (lib.run_flags args)).1 n))
        | inr (inr e) ↦ inr (inr e)
      ],
    )

    after_flags-Reads :
        (r : ℕ ⊎ List Bytes)
        → (exit_status (
              after_flags version
                (get_cmd lib env system probe version w)
                (λ run_args.
                  after_run_flags lib env system probe version w (lib.run_flags run_args))
                r)
            ≡ 0)
          ↔ Reads CommandEndsWell r
    after_flags-Reads (inl status) =
        (λ h. inl (ap inl h), λ h. elim h [ inl e ↦ cc e | inr (a, e, ok) ↦ absurd (cc e) ])
    after_flags-Reads (inr []) = (
      λ h. absurd (omega (arith, h)),
      λ h. elim h [
        | inl e ↦ absurd (cc e)
        | inr (a, e, ok) ↦ absurd (subst CommandEndsWell {x = a} {y = []} (sym (cc e)) ok)
      ],
    )
    after_flags-Reads (inr (cmd ∷ args)) =
        let get = get_cmd lib env system probe version w in
        let ran = λ (run_args : List Bytes).
          after_run_flags lib env system probe version w (lib.run_flags run_args) in
        (
          λ h. inr (
            cmd ∷ args,
            refl,
            (command_ends cmd args).0 (dispatch-IsAccepted version get ran cmd args h),
          ),
          λ h. elim h [
            | inl e ↦ absurd (cc e)
            | inr (a, e, ok) ↦ accepted_exit version get ran cmd args (
                (command_ends cmd args).1
                  (subst CommandEndsWell {x = a} {y = cmd ∷ args} (sym (cc e)) ok))
          ],
        )

    -- If no client of Simulate panics, the program exits with status 0 exactly if a flag parser exits with
    -- it, or its command is `get` with an argument that is accepted and answered, `run` with an address to
    -- bind to and arguments that each choose a module, or `version`.
    pub program-EndsWell :
        (args : List Bytes)
        → (exit_status (program lib env system probe version w args) ≡ 0) ↔ EndsWell args
    unfolding program main
    program-EndsWell args = after_flags-Reads (lib.root_flags args)
