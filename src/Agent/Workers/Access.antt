-- ===== src/Agent/Workers/Access.antt =====
-- crates/agent/src/coordination.rs: the two handlers under a cluster token.
use sembazuru.Base.{
  ℕ, ◌≡◌, ◌≢◌, refl, List, [], some, err, All, Result-cases, Bool-cases, inl, inr, false,
}
use sembazuru.Bytes.{IsByte}
use sembazuru.Base.Texts.{same}
use sembazuru.Proto.Auth.{AuthError, check, check_iff, IsConfigured}
use sembazuru.Agent.Workers.{
  WorkerTable, RegisterRequest, HeartbeatPing, admit, register, heartbeat,
}

some_of : (a b : List ℕ) → some a ≡ some b → a ≡ b
some_of a b e = cc

wrong_refused :
    (token presented : List ℕ)
    → IsConfigured (some token)
    → All IsByte presented
    → token ≢ presented
    → (e : AuthError) × (check (some token) presented ≡ err e)
wrong_refused token presented c b ne = elim (Result-cases (check (some token) presented)) [
  | inr w ↦ w
  | inl (tt, q) ↦ elim ((check_iff (some token) presented b c).0 q) [
    | inl n ↦ absurd cc
    | inr s ↦ absurd (ne (some_of token presented s))
  ]
]

-- With a token configured, which is a byte string that is not empty, neither a registration nor a
-- ping that carries another byte string changes the table, and such a ping ends its stream.
pub wrong_token_unchanged :
    (t : WorkerTable) (token : List ℕ) (req : RegisterRequest) (ping : HeartbeatPing) (now : ℕ)
    → IsConfigured (some token)
    → All IsByte req.auth_token
    → All IsByte ping.auth_token
    → token ≢ req.auth_token
    → token ≢ ping.auth_token
    → ((register t (some token) req now).0 ≡ t) × (heartbeat t (some token) ping now ≡ (t, false))
unfolding register heartbeat admit
wrong_token_unchanged t token req ping now c br bp nr np =
    let (e, q) = wrong_refused token req.auth_token c br nr in
    let (e2, q2) = wrong_refused token ping.auth_token c bp np in
    (
      elim (Bool-cases (same req.worker_id [])) [
        | inl y ↦ rw y refl
        | inr n ↦ elim (Bool-cases (same req.execution_endpoint [])) [
          | inl y ↦ rw (n, y) refl
          | inr m ↦ rw (n, m, q) refl
        ]
      ],
      rw (heartbeat, q2) refl,
    )
