-- ===== src/Client/Bounds.antt =====
-- How many exchanges a redirection makes, and when it gives up.
use hiyori.Prelude.{
  ℕ, zero, suc, ◌+◌, ◌≤◌, ◌<◌, ◌≡◌, refl, ap, Bool, Option, none, some, pos, negsuc, arith,
}
use mathlib.Core.Path.{ap₂, fun_ext}
use hiyori.Outcome.{Outcome, raise}
use hiyori.Exceptions.{Error, unbound_local}
use hiyori.Headers.{HeaderDict}
use hiyori.Bodies.{RequestBody}
use hiyori.Body.{Body}
use hiyori.Messages.{PendingRequest, Response}
use hiyori.Connection.Http.{HttpProtocol}
use hiyori.Connection.Send.{Exchange}
use hiyori.Client.Pool.{HttpClient}
use hiyori.Client.Errors.{lower}
use hiyori.Client.Send.{Options}
use hiyori.Client.Fetch.{Outside}
use hiyori.Client.Redirect.{rounds, after_round, round, redirect_loop, handle_redirection}

abbrev pub Exchanges : Type 0 → Type 0 → Type 0 → Type 0
Exchanges P H C =
    ℕ → Bool → ℕ → Exchange P H (Body H C) → Outcome Error (Response H) × Exchange P H (Body H C)

abbrev pub Others : Type 0 → Type 0
Others P = ℕ → HttpClient P → HttpClient P

module _ {P H C : Type 0} ⦃d : HeaderDict H⦄ (http_protocol : HttpProtocol P H)
    (class : RequestBody C) (outside : Outside) where
  -- The loop from exchange `i` on uses those exchanges only that its rounds allow.
  loop-agree :
      (x y : Exchanges P H C) (o : Others P) (options : Options) (k i : ℕ)
      (request : PendingRequest H (Body H C)) (last : Option (Response H)) (c : HttpClient P)
      → ((j : ℕ) → j < i + k → x j ≡ y j)
      → redirect_loop http_protocol class outside x o k i options request last c
        ≡ redirect_loop http_protocol class outside y o k i options request last c
  unfolding redirect_loop
  loop-agree x y o options zero i request none c h = refl
  loop-agree x y o options zero i request (some r) c h = refl
  loop-agree x y o options (suc k) i request last c h =
      ap₂ (λ f a. after_round f request a)
        (fun_ext λ q. fun_ext λ r.
          fun_ext λ c'. loop-agree x y o options k (suc i) q (some r) c' (λ j l. h j (omega arith)))
        (ap (λ e. round http_protocol class outside e (o i) options request last c)
          (h i (omega arith)))

  -- A redirection with a limit of `n` makes at most `n + 1` exchanges: what the servers would answer
  -- to any further one does not matter.
  pub handle_redirection-agree :
      (x y : Exchanges P H C) (o : Others P) (options : Options) (n : ℕ)
      (request : PendingRequest H (Body H C)) (c : HttpClient P)
      → ((j : ℕ) → j ≤ n → x j ≡ y j)
      → handle_redirection http_protocol class outside x o options (some (pos n)) request c
        ≡ handle_redirection http_protocol class outside y o options (some (pos n)) request c
  unfolding handle_redirection rounds
  handle_redirection-agree x y o options n request c h =
      loop-agree x y o options (n + 1) 0 request none c (λ j l. h j (omega arith))

  -- With a negative limit no request is made: the call raises UnboundLocalError and leaves the client
  -- as it was.
  pub handle_redirection-negative :
      (x : Exchanges P H C) (o : Others P) (options : Options) (n : ℕ)
      (request : PendingRequest H (Body H C)) (c : HttpClient P)
      → handle_redirection http_protocol class outside x o options (some (negsuc n)) request c
        ≡ (raise (lower unbound_local), c)
  unfolding handle_redirection redirect_loop rounds
  handle_redirection-negative x o options n request c = refl
