-- ===== src/Views/Tests.antt =====
-- Routes that read, with and without a token and a frame.
use sql_monitor.Base.{ℕ, ◌≡◌, refl, [], nat_eq, string_eq, pair_eq, int_eq, list_eq}
use sql_monitor.Auth.{seconds}
use sql_monitor.Users.{Response, answer, http_error, uncaught}
use sql_monitor.Users.Sample.{env, users, token}
use sql_monitor.Auth.Sample.{decode, encode}
use sql_monitor.Sessions.Sample.{tables}
use sql_monitor.Kill.{KillState}
use sql_monitor.Views.{View, get_blocking_route, get_kill_audits, handle_view}

abbrev state : KillState
state = record { audits = []; calls = [] }

abbrev code : Response View → ℕ
code (answer v) = 200
code (http_error n) = n
code uncaught = 500

found : code (handle_view env users tables state token (seconds 100) (get_blocking_route 7)) ≡ 200
unfolding handle_view decode encode
found = refl

no_token : code (handle_view env users tables state [] (seconds 100) (get_blocking_route 7)) ≡ 401
unfolding handle_view decode encode
no_token = refl

no_frame :
    code (handle_view env users tables state token (seconds 100) (get_blocking_route 8)) ≡ 409
unfolding handle_view decode encode
no_frame = refl

too_many : code (handle_view env users tables state token (seconds 100) (get_kill_audits 501)) ≡ 422
unfolding handle_view decode encode
too_many = refl
