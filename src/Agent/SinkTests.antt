-- ===== src/Agent/SinkTests.antt =====
-- An HTTP sink with batches of two, and a collector that is overloaded: a test, and the theorem on the
-- HTTP sink at work.
use tapio.Prelude.{ℕ, String, ◌≡◌, refl, List, [], ◌∷◌, Result, ok, err, arith}
use tapio.Observer.Occurrence.{Occurrence, Severity, Outcome, new_at}
use tapio.Observer.Convert.{SinkError}
use tapio.Agent.HttpSink.{HttpInner, http_inner, http_send, http_flush}
use tapio.Agent.OtlpSink.{export_batch, Export}
use tapio.Agent.Overflow.{IsBounded, http_send-IsBounded}

abbrev refusal : Occurrence
refusal = new_at "01" "kernel.network.connection_refused" Severity.warning Outcome.failure 5

abbrev encodes : List Occurrence → Result String (List ℕ)
encodes batch = ok []

abbrev refuses : List ℕ → Result String (Unit {0})
refuses payload = err "connect: refused"

abbrev inner : HttpInner
inner = http_inner 0 2 1000

IsBounded-inner : IsBounded 2 inner
unfolding http_inner
IsBounded-inner = record {
  maximum = refl;
  buffered = omega arith;
  waits = omega arith;
  at_most = omega arith;
}

http_send-IsBounded_example :
    IsBounded 2 (http_send encodes refuses 2 1000 1000 1500 refusal inner).0
    × IsBounded 2 (http_flush encodes refuses 1000 1500 inner).0
http_send-IsBounded_example =
    http_send-IsBounded 2 encodes refuses 1000 1000 1500 refusal inner (omega arith) IsBounded-inner

abbrev overloaded : ℕ → Result SinkError ℕ
overloaded attempt = ok 503

all_attempts : Export.posts (export_batch overloaded (refusal ∷ [])) ≡ 4
unfolding export_batch
all_attempts = refl
