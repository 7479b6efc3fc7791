-- ===== src/Session/Untouched.antt =====
-- What ensureAuthenticated of src/driver/run.go leaves of the pool, and the Put behind it.
use gopher_cypher.Session.Finishes.{Finishes, Finishes-bolt_handshake}
use gopher_cypher.Common.{
  ℕ, List, [], ◌∷◌, ◌++◌, ◌&&◌, not, Bool, true, false, Option, some, ◌≡◌, refl, ap, ◌∙◌, inl, inr,
  Bool-cases,
}
use gopher_cypher.Messaging.Connection.{Conn, Outcome, ok, err, stuck, Action}
use gopher_cypher.Session.Pooled.{PooledConn, needs_reauth}
use gopher_cypher.Session.Running.{
  Slot, PoolCall, got, given_back, Pool, put_conn, Held, aliased, replaced, original, used,
  set_used, Settings, Circumstances, Ensured, ensured, refused, unending, bolt_handshake,
  after_bolt, ensure_held, after_replacement, after_liveness, ensure_authenticated, is_alive, Ran,
  answered, failed, endless, after_query, after_ensured,
}

-- The call has put the connection `id` back, and nothing else, after the calls before; `flag` says
-- whether with an error.
abbrev pub PutsBack : ℕ → List PoolCall → Bool → Pool → Type 0
PutsBack id before flag pool =
    (pc : PooledConn) × (pool.calls
      ≡ before ++ (given_back (record { id = id; pc = pc }) flag ∷ []))

-- The call returns, and gives back with an error exactly if it fails.
abbrev pub Ends {ℓ} : {A : Type ℓ} → (Bool → Pool → Type 0) → Ran A → Type 0
Ends P (answered a pool) = P false pool
Ends P (failed why pool) = P true pool
Ends P endless = ⊥

-- ensureAuthenticated returns; the caller's connection is still `id`, and the pool was not called.
abbrev pub Untouched : ℕ → List PoolCall → Ensured → Type 0
Untouched id before (ensured held pool) = ((original held).id ≡ id) × (pool.calls ≡ before)
Untouched id before (refused why held pool) = ((original held).id ≡ id) × (pool.calls ≡ before)
Untouched id before unending = ⊥

pub id-set_used :
    (pc : PooledConn) (held : Held) → (original (set_used pc held)).id ≡ (original held).id
id-set_used pc (aliased s) = refl
id-set_used pc (replaced s r) = refl

after_bolt-Untouched :
    (later : ℕ) (held : Held) (pool : Pool) (o : Outcome (ℕ × ℕ))
    → Finishes o
    → Untouched (original held).id pool.calls (after_bolt later held pool o)
unfolding after_bolt
after_bolt-Untouched later held pool (ok (major, minor) conn) h = (id-set_used _ held, refl)
after_bolt-Untouched later held pool (err e conn) h = (id-set_used _ held, refl)
after_bolt-Untouched later held pool stuck h = h

ensure_held-Untouched :
    (settings : Settings) (c : Circumstances) (held : Held) (pool : Pool)
    → Untouched (original held).id pool.calls (ensure_held settings c held pool)
unfolding ensure_held
ensure_held-Untouched settings c held pool =
    elim (Bool-cases (needs_reauth settings.max_idle_time c.now (used held))) [
      | inl e ↦ rw e (
          after_bolt-Untouched c.later held pool (bolt_handshake settings (used held).conn)
            (Finishes-bolt_handshake settings (used held).conn))
      | inr e ↦ rw e (id-set_used _ held, refl)
    ]

pub put_back :
    (s : Slot) (id : ℕ) (before : List PoolCall) (flag : Bool) (pool : Pool)
    → s.id ≡ id
    → pool.calls ≡ before
    → PutsBack id before flag (put_conn s flag pool)
put_back s id before flag pool e f = (
  s.pc,
  ap (λ calls. calls ++ (given_back s flag ∷ [])) f
      ∙ ap (λ i. before ++ (given_back (record { id = i; pc = s.pc }) flag ∷ [])) e,
)

after_query-Ends {ℓ} :
    {A : Type ℓ} (held : Held) (pool : Pool) (o : Outcome A) (id : ℕ) (before : List PoolCall)
    → (original held).id ≡ id
    → pool.calls ≡ before
    → Finishes o
    → Ends (PutsBack id before) (after_query held pool o)
unfolding after_query
after_query-Ends held pool (ok a conn) id before e f h =
    put_back (original (set_used _ held)) id before false pool (id-set_used _ held ∙ e) f
after_query-Ends held pool (err w conn) id before e f h =
    put_back (original (set_used _ held)) id before true pool (id-set_used _ held ∙ e) f
after_query-Ends held pool stuck id before e f h = h

pub after_ensured-Ends {ℓ} :
    {A : Type ℓ} (query : Action A) (o : Ensured) (id : ℕ) (before : List PoolCall)
    → ((conn : Conn) → Finishes (query conn))
    → Untouched id before o
    → Ends (PutsBack id before) (after_ensured query o)
after_ensured-Ends query (ensured held pool) id before h (e, f) =
    after_query-Ends held pool (query (used held).conn) id before e f (h (used held).conn)
after_ensured-Ends query (refused why held pool) id before h (e, f) =
    put_back (original held) id before true pool e f
after_ensured-Ends query unending id before h u = u

-- The liveness check is made, and finds the connection dead.
unfoldable pub found_dead : Settings → Circumstances → Slot → Bool
found_dead settings c slot =
    (settings.enable_liveness_check && slot.pc.authenticated) && not (is_alive c.arrived slot.pc).0

after_liveness-alive :
    (settings : Settings) (c : Circumstances) (slot : Slot) (pool : Pool) (r : Bool × PooledConn)
    → not r.0 ≡ false
    → Untouched slot.id pool.calls (after_liveness settings c slot pool r)
unfolding after_liveness
after_liveness-alive settings c slot pool (true, pc) h =
    ensure_held-Untouched settings c (aliased (record slot { pc = pc })) pool
after_liveness-alive settings c slot pool (false, pc) h = absurd (cc h)

pub ensure-alive :
    (settings : Settings) (c : Circumstances) (slot : Slot) (pool : Pool)
    → found_dead settings c slot ≡ false
    → Untouched slot.id pool.calls (ensure_authenticated settings c slot pool)
unfolding ensure_authenticated found_dead
ensure-alive settings c slot pool h =
    elim (Bool-cases (settings.enable_liveness_check && slot.pc.authenticated)) [
      | inl e ↦
          rw e (after_liveness-alive settings c slot pool (is_alive c.arrived slot.pc) (rw e at h))
      | inr e ↦ rw e (ensure_held-Untouched settings c (aliased slot) pool)
    ]

after_liveness-dead :
    (settings : Settings) (c : Circumstances) (slot fresh : Slot) (answers : List (Option Slot))
    (calls : List PoolCall) (r : Bool × PooledConn)
    → not r.0 ≡ true
    → Untouched slot.id
        ((calls ++ (given_back (record slot { pc = r.1 }) true ∷ [])) ++ (got fresh.id ∷ []))
        (after_liveness settings c slot
          (record { answers = some fresh ∷ answers; calls = calls })
          r)
unfolding after_liveness after_replacement
after_liveness-dead settings c slot fresh answers calls (true, pc) h = absurd (cc h)
after_liveness-dead settings c slot fresh answers calls (false, pc) h =
    let dead : Slot = record slot { pc = pc } in
    ensure_held-Untouched settings c (replaced dead fresh) (record {
      answers = answers;
      calls = (calls ++ (given_back dead true ∷ [])) ++ (got fresh.id ∷ []);
    })

-- The connection as the liveness check left it.
abbrev pub checked_conn : Circumstances → Slot → PooledConn
checked_conn c slot = (is_alive c.arrived slot.pc).1

pub ensure-dead :
    (settings : Settings) (c : Circumstances) (slot fresh : Slot) (answers : List (Option Slot))
    (calls : List PoolCall)
    → found_dead settings c slot ≡ true
    → Untouched slot.id
        ((calls ++ (given_back (record slot { pc = checked_conn c slot }) true ∷ []))
          ++ (got fresh.id ∷ []))
        (ensure_authenticated settings c slot
          (record { answers = some fresh ∷ answers; calls = calls }))
unfolding ensure_authenticated found_dead
ensure-dead settings c slot fresh answers calls h =
    elim (Bool-cases (settings.enable_liveness_check && slot.pc.authenticated)) [
      | inl e ↦ rw e (
          after_liveness-dead settings c slot fresh answers calls (is_alive c.arrived slot.pc)
            (rw e at h))
      | inr e ↦ absurd (cc (rw e at h))
    ]
