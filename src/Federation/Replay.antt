-- ===== src/Federation/Replay.antt =====
-- crates/adapter-federation/src/command: the guard against a command that is sent twice.
use democrachat.Prelude.{
  ltb_iff, ltb-false_iff, beq_refl, All-imp, ◌==◌, [], ◌∷◌, List, Bool-cases, inl, inr, ltb, All,
  ◌≢◌, refl, arith, ◌≡◌, ◌*◌, suc, ℕ, Bool, true, false, Option, none, some, nat_eq, list_eq,
  pair_eq, if◌then◌else◌,
}
use democrachat.Prelude.Int.{+ℤ_parts, ◌<ℤ◌, ◌≤ℤ◌, ◌+ℤ◌, ℤ, pos, negsuc, ◌-ℤ◌, ltb_ℤ, int_eq}
use democrachat.Prelude.Maps.{get-insert, Map, get, insert}
use democrachat.Prelude.Std.{Text}
use democrachat.Store.Content.{retain_values}
use democrachat.App.Results.{Result, ok, err}

abbrev pub max_command_skew_secs : ℕ
max_command_skew_secs = 120

pub data Refusal : Type 0 where
  out_of_window duplicate : Refusal

abbrev pub abs : ℤ → ℕ
abs (pos n) = n
abs (negsuc n) = suc n

abbrev pub NonceLog : Type 0
NonceLog = Map (ℕ × Text) ℤ

abbrev is_absent : Option ℤ → Bool
is_absent none = true
is_absent (some _) = false

-- `InMemoryNonceLog::remember`.
unfoldable pub remember : NonceLog → ℕ → Text → ℤ → ℤ → Bool × NonceLog
remember seen node nonce now expiry_at =
    let kept = retain_values (λ expiry. ltb_ℤ now expiry) seen in
    (is_absent (get (node, nonce) kept), insert (node, nonce) expiry_at kept)

-- `ReplayGuard::admit`. A refused duplicate has its entry renewed all the same.
unfoldable pub admit :
    NonceLog → ℕ → Text → (issued_at now : ℤ) → Result Refusal (Unit {0}) × NonceLog
unfolding remember
admit seen node nonce issued_at now =
    if ltb max_command_skew_secs (abs (now -ℤ issued_at))
    then (err out_of_window, seen)
    else (let (is_new, log) =
          remember seen node nonce now (now +ℤ pos (2 * max_command_skew_secs)) in
        (if is_new then ok tt else err duplicate, log))

-- A command that reaches the guard, with the clock at that moment.
pub record Attempt : Type 0 where
  pub node : ℕ
  pub nonce : Text
  pub issued_at : ℤ
  pub at : ℤ

unfoldable pub admit_all : NonceLog → List Attempt → NonceLog
unfolding admit
admit_all log [] = log
admit_all log (a ∷ rest) = admit_all (admit log a.node a.nonce a.issued_at a.at).1 rest

get-retain_values :
    (k : ℕ × Text) (x : ℤ) (p : ℤ → Bool) (log : NonceLog)
    → get k log ≡ some x
    → p x ≡ true
    → get k (retain_values p log) ≡ some x
unfolding get
get-retain_values k x p [] h e = absurd (cc)
get-retain_values k x p ((j, v) ∷ log) h e = ground (arith, get-retain_values k x p log)

ltb_ℤ-trans : (a b c : ℤ) → a <ℤ b → b ≤ℤ c → ltb_ℤ a c ≡ true
ltb_ℤ-trans a b c h k = ground arith

module _ (node : ℕ) (nonce : Text) (until : ℤ) where
  -- The nonce is remembered till `until` at least.
  abbrev Remembers : NonceLog → Type 0
  Remembers log = (x : ℤ) × (get (node, nonce) log ≡ some x) × (until ≤ℤ x)

  Remembers-remember :
      (log : NonceLog) (m : ℕ) (other : Text) (now expiry : ℤ)
      → now <ℤ until
      → until ≤ℤ expiry
      → Remembers log
      → Remembers (remember log m other now expiry).1
  unfolding remember
  Remembers-remember log m other now expiry early late (x, h, b) =
      let kept : NonceLog = retain_values (λ e. ltb_ℤ now e) log in
      let at = get-insert (m, other) (node, nonce) expiry kept in
      elim (Bool-cases (◌==◌ {A = ℕ × Text} (m, other) (node, nonce))) [
        | inl e ↦ (expiry, rw (at, e) refl, late)
        | inr e ↦ (
          x,
          rw (at, e)
              (get-retain_values (node, nonce) x (λ y. ltb_ℤ now y) log h
                (ltb_ℤ-trans now until x early b)),
          b,
        )
      ]

  Remembers-admit :
      (log : NonceLog) (m : ℕ) (other : Text) (issued at : ℤ)
      → at <ℤ until
      → until ≤ℤ at +ℤ pos 240
      → Remembers log
      → Remembers (admit log m other issued at).1
  unfolding admit
  Remembers-admit log m other issued at early late h =
      elim (Bool-cases (ltb max_command_skew_secs (abs (at -ℤ issued)))) [
        | inl e ↦ rw e h
        | inr e ↦ rw e (Remembers-remember log m other at (at +ℤ pos 240) early late h)
      ]

  Remembers-admit_all :
      (log : NonceLog) (between : List Attempt)
      → All (λ a. (a.at <ℤ until) × (until ≤ℤ a.at +ℤ pos 240)) between
      → Remembers log
      → Remembers (admit_all log between)
  unfolding admit_all
  Remembers-admit_all log [] t h = h
  Remembers-admit_all log (a ∷ rest) t h =
      Remembers-admit_all (admit log a.node a.nonce a.issued_at a.at).1 rest t.1
        (Remembers-admit log a.node a.nonce a.issued_at a.at t.0.0 t.0.1 h)

  Remembers-refuses :
      (log : NonceLog) (issued at : ℤ)
      → at <ℤ until
      → Remembers log
      → (admit log node nonce issued at).0 ≢ ok tt
  unfolding admit remember
  Remembers-refuses log issued at early (x, h, b) g =
      elim (Bool-cases (ltb max_command_skew_secs (abs (at -ℤ issued)))) [
        | inl e ↦ absurd (ground arith)
        | inr e ↦
            let k =
              get-retain_values (node, nonce) x (λ y. ltb_ℤ at y) log h
                (ltb_ℤ-trans at until x early b) in
            absurd (ground arith)
      ]

Remembers-first :
    (log : NonceLog) (node : ℕ) (nonce : Text) (issued now : ℤ)
    → (admit log node nonce issued now).0 ≡ ok tt
    → Remembers node nonce (now +ℤ pos 240) (admit log node nonce issued now).1
unfolding admit remember
Remembers-first log node nonce issued now h =
    elim (Bool-cases (ltb max_command_skew_secs (abs (now -ℤ issued)))) [
      | inl e ↦ absurd (ground arith)
      | inr e ↦
          let kept : NonceLog = retain_values (λ x. ltb_ℤ now x) log in
          rw e (
            now +ℤ pos 240,
            rw
                (
                  get-insert (node, nonce) (node, nonce) (now +ℤ pos 240) kept,
                  beq_refl {A = ℕ × Text} (node, nonce),
                )
                refl,
            omega arith,
          )
    ]

late_window :
    (issued now again : ℤ)
    → issued <ℤ now +ℤ pos 120
    → now +ℤ pos 240 ≤ℤ again
    → ltb max_command_skew_secs (abs (again -ℤ issued)) ≡ true
unfolding ◌+ℤ◌ ◌-ℤ◌
late_window issued now again h k = ground arith

within :
    (now again at : ℤ)
    → again <ℤ now +ℤ pos 240
    → (now ≤ℤ at) × (at ≤ℤ again)
    → (at <ℤ now +ℤ pos 240) × (now +ℤ pos 240 ≤ℤ at +ℤ pos 240)
within now again at h k =
    (omega (arith, k.1), omega (arith, k.0, +ℤ_parts now (pos 240), +ℤ_parts at (pos 240)))

-- A command that was admitted once is not admitted again, whatever else reaches the guard in
-- between, if it was issued less than 120 seconds ahead of the guard's clock, and the clock showed
-- the others no time before the first admission and none after the second attempt.
pub admit_all_refuses :
    (log : NonceLog) (node : ℕ) (nonce : Text) (issued now again : ℤ) (between : List Attempt)
    → (admit log node nonce issued now).0 ≡ ok tt
    → issued <ℤ now +ℤ pos 120
    → All (λ a. (now ≤ℤ a.at) × (a.at ≤ℤ again)) between
    → (admit (admit_all (admit log node nonce issued now).1 between) node nonce issued again).0
      ≢ ok tt
unfolding admit
admit_all_refuses log node nonce issued now again between h ahead ordered g =
    elim (Bool-cases (ltb_ℤ again (now +ℤ pos 240))) [
      | inr e ↦
          let late = late_window issued now again ahead ((ltb-false_iff _ _).0 e) in
          absurd (ground arith)
      | inl e ↦
          let early : again <ℤ now +ℤ pos 240 = (ltb_iff _ _).0 e in
          Remembers-refuses node nonce (now +ℤ pos 240)
            (admit_all (admit log node nonce issued now).1 between) issued again early
            (Remembers-admit_all node nonce (now +ℤ pos 240) (admit log node nonce issued now).1
              between (All-imp _ _ (λ a. within now again a.at early) between ordered)
              (Remembers-first log node nonce issued now h))
            g
    ]
