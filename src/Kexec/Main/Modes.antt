-- ===== src/Kexec/Main/Modes.antt =====
-- What `kexec -l` and `kexec -e` do.
use monoimage.Prelude.{
  ◌≡◌, refl, ◌∙◌, ap, if_false, Bool, true, false, none, some, List, [], ◌∷◌, ◌++◌, if◌then◌else◌,
  All, arith,
}
use monoimage.Kexec.Load.{LoadEnd, refused, submitted, exited, never}
use monoimage.Kexec.Main.{
  KexecOpt, help, version, no_ifdown, force, load, unload, exec, type_is, panic, mem_min, mem_max,
  other, Flags, default_flags, go_on, set_flag, parse_flags, Step, loads, syncs, downs_interfaces,
  starts_kernel, Answers, End, status, replaced, no_end, run_exec, run_ifdown, run_sync,
  run_shutdown, after_load, run_load, run_flags, main,
}

-- An option that chooses no action: one of another program, a file type, a bound, or --no-ifdown.
abbrev pub IsNeutral : KexecOpt → Type 0
IsNeutral no_ifdown = Unit
IsNeutral (type_is t) = Unit
IsNeutral (mem_min (some n)) = Unit
IsNeutral (mem_max (some n)) = Unit
IsNeutral other = Unit
IsNeutral o = ⊥

-- The flags that choose the actions are those of the start.
record IsUnset (g : Flags) : Type 0 where
  load_set : g.do_load ≡ true
  no_exec : g.do_exec ≡ false
  sync_set : g.do_sync ≡ true
  ifdown_off : g.do_ifdown ≡ false
  no_unload : g.do_unload ≡ false

parse_neutral :
    (xs ys : List KexecOpt) (g : Flags)
    → All IsNeutral xs
    → IsUnset g
    → (g' : Flags) × ((parse_flags xs g ≡ go_on g')
        × (parse_flags (xs ++ ys) g ≡ parse_flags ys g'))
      × IsUnset g'
unfolding parse_flags set_flag
parse_neutral [] ys g h u = (g, (refl, refl), u)
parse_neutral (no_ifdown ∷ xs) ys g h u =
    parse_neutral xs ys (record g { do_ifdown = false }) h.1 (ground (arith, u))
parse_neutral (type_is t ∷ xs) ys g h u =
    parse_neutral xs ys (record g { type = some t }) h.1 (ground (arith, u))
parse_neutral (mem_min (some n) ∷ xs) ys g h u =
    parse_neutral xs ys (record g { least = n }) h.1 (ground (arith, u))
parse_neutral (mem_min none ∷ xs) ys g h u = absurd h.0
parse_neutral (mem_max (some n) ∷ xs) ys g h u =
    parse_neutral xs ys (record g { most = n }) h.1 (ground (arith, u))
parse_neutral (mem_max none ∷ xs) ys g h u = absurd h.0
parse_neutral (other ∷ xs) ys g h u = parse_neutral xs ys g h.1 u
parse_neutral (help ∷ xs) ys g h u = absurd h.0
parse_neutral (version ∷ xs) ys g h u = absurd h.0
parse_neutral (force ∷ xs) ys g h u = absurd h.0
parse_neutral (load ∷ xs) ys g h u = absurd h.0
parse_neutral (unload ∷ xs) ys g h u = absurd h.0
parse_neutral (exec ∷ xs) ys g h u = absurd h.0
parse_neutral (panic ∷ xs) ys g h u = absurd h.0

default-IsUnset : IsUnset default_flags
default-IsUnset = ground arith

-- Was the kernel taken by the system?
abbrev pub is_loaded : Answers → LoadEnd → Bool
is_loaded a (submitted s) = a.submit_ok s
is_loaded a refused = false
is_loaded a (exited d) = false
is_loaded a never = false

abbrev pub load_flags : Flags → Flags
load_flags g = record g { do_load = true; do_exec = false; do_shutdown = false }

abbrev pub load_status : Answers → LoadEnd → End
load_status a (submitted s) = status (a.submit_ok s)
load_status a refused = status false
load_status a (exited d) = status false
load_status a never = no_end

module _ (a : Answers) (arch : a.arch_ok ≡ true) where
  run_shutdown-quiet :
      (g : Flags) (ok : Bool)
      → g.do_shutdown ≡ false
      → g.do_exec ≡ false
      → g.do_sync ≡ true
      → g.do_ifdown ≡ false
      → run_shutdown a g ok ≡ (if ok then syncs ∷ [] else [], status ok)
  unfolding run_shutdown run_sync run_ifdown run_exec
  run_shutdown-quiet g true h e s i = rw (h, e, s, i)
  run_shutdown-quiet g false h e s i = refl

  after_load-quiet :
      (g : Flags) (l : LoadEnd)
      → g.do_shutdown ≡ false
      → g.do_exec ≡ false
      → g.do_sync ≡ true
      → g.do_ifdown ≡ false
      → after_load a g l ≡ (if is_loaded a l then syncs ∷ [] else [], load_status a l)
  unfolding after_load
  after_load-quiet g refused h e s i = run_shutdown-quiet g false h e s i
  after_load-quiet g (submitted x) h e s i = run_shutdown-quiet g (a.submit_ok x) h e s i
  after_load-quiet g (exited d) h e s i = refl
  after_load-quiet g never h e s i = refl

  run_flags_lem : (k : Flags) → k.do_unload ≡ false → run_flags a k ≡ run_load a k true
  unfolding run_flags
  run_flags_lem k h = if_false _ _ h ∙ ap (run_load a k) arch

  run_load_lem :
      (g : Flags) {r : List Step × End}
      → after_load a (load_flags g) (a.load_end (load_flags g)) ≡ r
      → run_load a (load_flags g) true ≡ (loads (a.load_end (load_flags g)) ∷ r.0, r.1)
  unfolding run_load
  run_load_lem g h = ap (λ (r : List Step × End). (loads (a.load_end (load_flags g)) ∷ r.0, r.1)) h

  -- `kexec -l` loads a kernel, syncs if the system has taken it, and does nothing else: it neither
  -- shuts down nor starts a kernel, and its status is that of the load.
  pub main-load :
      (xs : List KexecOpt)
      → All IsNeutral xs
      → (g : Flags) × (parse_flags xs default_flags ≡ go_on g)
        × (main a (xs ++ load ∷ []) ≡ (
          loads (a.load_end (load_flags g))
              ∷ (if is_loaded a (a.load_end (load_flags g)) then syncs ∷ [] else []),
          load_status a (a.load_end (load_flags g)),
        ))
  unfolding main parse_flags set_flag
  main-load xs h =
      let (g, e, u) = parse_neutral xs (load ∷ []) default_flags h default-IsUnset in
      (
        g,
        e.0,
        rw (e.1, main, parse_flags)
            (run_flags_lem (load_flags g) u.no_unload
              ∙ run_load_lem g (
                  after_load-quiet (load_flags g) (a.load_end (load_flags g)) refl refl u.sync_set
                    u.ifdown_off)),
      )

  -- `kexec -e` syncs, takes the interfaces down and starts the kernel that is loaded, in this order, and
  -- does nothing else; it comes back only if that kernel cannot be started.
  pub main-exec :
      (xs : List KexecOpt)
      → All IsNeutral xs
      → main a (xs ++ exec ∷ []) ≡ (
        syncs ∷ downs_interfaces ∷ starts_kernel ∷ [],
        if a.reboot_ok then replaced else status false,
      )
  unfolding main parse_flags set_flag run_flags run_load run_shutdown run_sync run_ifdown run_exec
  main-exec xs h =
      let (g, e, u) = parse_neutral xs (exec ∷ []) default_flags h default-IsUnset in
      let k = record g {
        do_load = false;
        do_shutdown = false;
        do_sync = true;
        do_ifdown = true;
        do_exec = true;
      } in
      rw (e.1, main, parse_flags) (run_flags_lem k u.no_unload)
