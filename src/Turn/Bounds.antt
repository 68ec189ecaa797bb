-- ===== src/Turn/Bounds.antt =====
-- What every trace of a turn keeps to (client/src-tauri/src/turn.rs).
use hydropark_gym.Prelude.{
  ℕ, ◌+◌, max, ◌≡◌, ◌≤◌, refl, ap, subst, Bool, true, false, Option, none, some, List, [], ◌∷◌,
  ◌++◌, arith, All,
}
use hydropark_gym.Prelude.Text.{Text}
use hydropark_gym.Prelude.Json.{Json}
use hydropark_gym.Prelude.Float.{Float}
use hydropark_gym.Catalog.Names.{ToolName}
use hydropark_gym.Turn.Types.{
  TurnConfig, Step, fallback, hop_limit_reached, tool_calls, repairs, duplicate_skips,
}
use hydropark_gym.Turn.Machine.{TurnState, World, run_turn, is_duplicate}
use hydropark_gym.Turn.Trace.{Trace, prose, tool_ok, tool_err, hop_limit, skip, repair, give_up}
use hydropark_gym.Turn.Runs.{run_turn_total}

abbrev of_bool : Bool → ℕ
of_bool true = 1
of_bool false = 0

module _ {V : Type 0} ⦃json : Json V⦄ where
  Trace-tool_calls :
      {limit h n : ℕ} {l : Option (ToolName × V)} {r : Bool} {steps : List (Step V)}
      → Trace limit h l n r steps
      → tool_calls steps + h ≤ max limit h
  unfolding tool_calls
  Trace-tool_calls (prose t) = omega arith
  Trace-tool_calls (tool_ok t a v s d rest) = omega (arith, Trace-tool_calls rest)
  Trace-tool_calls (tool_err t a e s d rest) = omega (arith, Trace-tool_calls rest)
  Trace-tool_calls (hop_limit s) = omega arith
  Trace-tool_calls (skip t a z d rest) = Trace-tool_calls rest
  Trace-tool_calls (repair x t raw rest) = Trace-tool_calls rest
  Trace-tool_calls (give_up x t p) = omega arith

  Trace-duplicate_skips :
      {limit h n : ℕ} {l : Option (ToolName × V)} {r : Bool} {steps : List (Step V)}
      → Trace limit h l n r steps
      → duplicate_skips steps + n ≤ tool_calls steps + max n 1
  unfolding tool_calls duplicate_skips
  Trace-duplicate_skips (prose t) = omega arith
  Trace-duplicate_skips (tool_ok t a v s d rest) = omega (arith, Trace-duplicate_skips rest)
  Trace-duplicate_skips (tool_err t a e s d rest) = omega (arith, Trace-duplicate_skips rest)
  Trace-duplicate_skips (hop_limit s) = omega arith
  Trace-duplicate_skips (skip t a z d rest) = omega (arith, z, Trace-duplicate_skips rest)
  Trace-duplicate_skips (repair x t raw rest) = Trace-duplicate_skips rest
  Trace-duplicate_skips (give_up x t p) = omega arith

  -- no call is skipped before one has run
  Trace-skips_le_calls :
      {limit h n : ℕ} {r : Bool} {steps : List (Step V)}
      → Trace limit h none n r steps
      → duplicate_skips steps ≤ tool_calls steps
  unfolding tool_calls duplicate_skips is_duplicate
  Trace-skips_le_calls (prose t) = omega arith
  Trace-skips_le_calls (tool_ok t a v s d rest) = omega (arith, Trace-duplicate_skips rest)
  Trace-skips_le_calls (tool_err t a e s d rest) = omega (arith, Trace-duplicate_skips rest)
  Trace-skips_le_calls (hop_limit s) = omega arith
  Trace-skips_le_calls (skip t a z d rest) = absurd (ground arith)
  Trace-skips_le_calls (repair x t raw rest) = Trace-skips_le_calls rest
  Trace-skips_le_calls (give_up x t p) = omega arith

  Trace-repairs :
      {limit h n : ℕ} {l : Option (ToolName × V)} {r : Bool} {steps : List (Step V)}
      → Trace limit h l n r steps
      → repairs steps + of_bool r ≤ tool_calls steps + duplicate_skips steps + 1
  unfolding tool_calls duplicate_skips repairs
  Trace-repairs {r = true} (prose t) = omega arith
  Trace-repairs {r = false} (prose t) = omega arith
  Trace-repairs {r = true} (tool_ok t a v s d rest) = omega (arith, Trace-repairs rest)
  Trace-repairs {r = false} (tool_ok t a v s d rest) = omega (arith, Trace-repairs rest)
  Trace-repairs {r = true} (tool_err t a e s d rest) = omega (arith, Trace-repairs rest)
  Trace-repairs {r = false} (tool_err t a e s d rest) = omega (arith, Trace-repairs rest)
  Trace-repairs {r = true} (hop_limit s) = omega arith
  Trace-repairs {r = false} (hop_limit s) = omega arith
  Trace-repairs {r = true} (skip t a z d rest) = omega (arith, Trace-repairs rest)
  Trace-repairs {r = false} (skip t a z d rest) = omega (arith, Trace-repairs rest)
  Trace-repairs (repair x t raw rest) = omega (arith, Trace-repairs rest)
  Trace-repairs (give_up x t p) = omega arith

  -- a step that ends a turn
  abbrev pub is_final : Step V → Bool
  is_final (Step.prose _) = true
  is_final (fallback _) = true
  is_final (hop_limit_reached _) = true
  is_final _ = false

  abbrev pub EndsOnce : List (Step V) → Type 0
  EndsOnce steps =
      (before : List (Step V)) × ((last : Step V) × ((steps ≡ before ++ (last ∷ []))
          × ((is_final last ≡ true) × All (λ x. is_final x ≡ false) before)))

  EndsOnce-cons :
      (x : Step V) (xs : List (Step V)) → is_final x ≡ false → EndsOnce xs → EndsOnce (x ∷ xs)
  EndsOnce-cons x xs h (before, (last, (e, (f, all)))) =
      (x ∷ before, (last, (ap (◌∷◌ x) e, (f, (h, all)))))

  Trace-EndsOnce :
      {limit h n : ℕ} {l : Option (ToolName × V)} {r : Bool} {steps : List (Step V)}
      → Trace limit h l n r steps
      → EndsOnce steps
  Trace-EndsOnce (prose t) = ([], (Step.prose t, (refl, (refl, tt))))
  Trace-EndsOnce (tool_ok t a v s d rest) =
      EndsOnce-cons _ _ refl (EndsOnce-cons _ _ refl (Trace-EndsOnce rest))
  Trace-EndsOnce (tool_err t a e s d rest) =
      EndsOnce-cons _ _ refl (EndsOnce-cons _ _ refl (Trace-EndsOnce rest))
  Trace-EndsOnce (hop_limit s) = ([], (_, (refl, (refl, tt))))
  Trace-EndsOnce (skip t a z d rest) = EndsOnce-cons _ _ refl (Trace-EndsOnce rest)
  Trace-EndsOnce (repair x t raw rest) = EndsOnce-cons _ _ refl (Trace-EndsOnce rest)
  Trace-EndsOnce (give_up x t p) = ([], (_, (refl, (refl, tt))))

  -- no call is the same as the call before it, the first one being compared with `last`
  unfoldable pub NoRepeat : Option (ToolName × V) → List (Step V) → Type 0
  NoRepeat last [] = Unit {0}
  NoRepeat last (Step.tool_call t args ∷ steps) =
      (is_duplicate last t args ≡ false) × NoRepeat (some (t, args)) steps
  NoRepeat last (_ ∷ steps) = NoRepeat last steps

  Trace-NoRepeat :
      {limit h n : ℕ} {l : Option (ToolName × V)} {r : Bool} {steps : List (Step V)}
      → Trace limit h l n r steps
      → NoRepeat l steps
  unfolding NoRepeat
  Trace-NoRepeat (prose t) = tt
  Trace-NoRepeat (tool_ok t a v s d rest) = (d, Trace-NoRepeat rest)
  Trace-NoRepeat (tool_err t a e s d rest) = (d, Trace-NoRepeat rest)
  Trace-NoRepeat (hop_limit s) = tt
  Trace-NoRepeat (skip t a z d rest) = Trace-NoRepeat rest
  Trace-NoRepeat (repair x t raw rest) = Trace-NoRepeat rest
  Trace-NoRepeat (give_up x t p) = tt

module _ {V F D S E R : Type 0} ⦃json : Json V⦄ ⦃float : Float F⦄ (world : World V F D S E R)
    (config : TurnConfig) where
  run_turn-Trace :
      (e : E) (r : R) (message : Text) (s : TurnState V E R)
      → run_turn world config e r message ≡ some s
      → Trace config.max_tool_hops 0 none 0 false s.steps
  run_turn-Trace e r message s h =
      let (s', (p, (t, _))) = run_turn_total world config e r message in
      let same : s' ≡ s = ground arith in
      subst (λ z. Trace config.max_tool_hops 0 none 0 false z.steps) same t

  -- A turn makes at most `max_tool_hops` tool calls, skips no more calls as duplicates than it
  -- makes, and asks for at most one repair more than it makes and skips calls.
  pub run_turn_bounds :
      (e : E) (r : R) (message : Text) (s : TurnState V E R)
      → run_turn world config e r message ≡ some s
      → (tool_calls s.steps ≤ config.max_tool_hops)
        × (duplicate_skips s.steps ≤ tool_calls s.steps)
        × (repairs s.steps ≤ tool_calls s.steps + duplicate_skips s.steps + 1)
  run_turn_bounds e r message s h =
      let t = run_turn-Trace e r message s h in
      (omega (arith, Trace-tool_calls t), Trace-skips_le_calls t, omega (arith, Trace-repairs t))

  -- The transcript of a turn ends with the one step of it that is prose, a fallback or the hop limit.
  pub run_turn_ends :
      (e : E) (r : R) (message : Text) (s : TurnState V E R)
      → run_turn world config e r message ≡ some s
      → EndsOnce s.steps
  run_turn_ends e r message s h = Trace-EndsOnce (run_turn-Trace e r message s h)

  -- No tool call of a turn has the tool and the arguments of the tool call before it, whatever
  -- stands between the two.
  pub run_turn-NoRepeat :
      (e : E) (r : R) (message : Text) (s : TurnState V E R)
      → run_turn world config e r message ≡ some s
      → NoRepeat none s.steps
  run_turn-NoRepeat e r message s h = Trace-NoRepeat (run_turn-Trace e r message s h)
