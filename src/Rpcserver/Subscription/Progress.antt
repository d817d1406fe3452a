-- ===== src/Rpcserver/Subscription/Progress.antt =====
-- What a subscription and the event loop can do next (rpcserver/impl_subscribe_onion_payload.go).
use boltnd.Prelude.{◌≡◌, inl, inr, refl, Bool, true, Option, none, some, List}
use boltnd.Prelude.Errors.{Result, ok, err, panic, stuck}
use boltnd.Rpcserver.Subscription.{Response, Stream, serve}
use boltnd.Rpcserver.Subscription.Joint.{
  Caller, serving, sending, deregistering, finished, Joint, Actor, Step, arrives, handed, dropped,
  takes, sent, cut_off, client_done, server_done, deferring, deregistered, abandoned, returned,
  quits, lnd_ends, cancels, server_stops, messenger_stops, Reached, begun, later,
}
use boltnd.Rpcserver.Subscription.Blocked.{IsCaused, HasEnded, Sound}

serve-IsCaused :
    (answer : Result (Unit {0})) (m : Response) (rest : List Response) (s : Stream)
    (context server : Bool)
    → s.end ≡ none
    → IsCaused (serve answer m rest s).end answer context server
unfolding serve
serve-IsCaused (ok _) m rest s context server runs = rw runs tt
serve-IsCaused (err e) m rest s context server runs = inr (inr (refl, tt))
serve-IsCaused panic m rest s context server runs = inr (inr (refl, tt))
serve-IsCaused stuck m rest s context server runs = inr (inr (refl, tt))

IsCaused-context :
    (end : Option (Result (Unit {0}))) (answer : Result (Unit {0})) (context server : Bool)
    → IsCaused end answer context server
    → IsCaused end answer true server
IsCaused-context none answer context server h = tt
IsCaused-context (some r) answer context server (inl h) = inl refl
IsCaused-context (some r) answer context server (inr h) = inr h

IsCaused-server :
    (end : Option (Result (Unit {0}))) (answer : Result (Unit {0})) (context server : Bool)
    → IsCaused end answer context server
    → IsCaused end answer context true
IsCaused-server none answer context server h = tt
IsCaused-server (some r) answer context server (inl h) = inl h
IsCaused-server (some r) answer context server (inr (inl h)) = inr (inl refl)
IsCaused-server (some r) answer context server (inr (inr h)) = inr (inr h)

ended-HasEnded :
    (c : Caller) (end : Option (Result (Unit {0})))
    → c ≡ deregistering
    → HasEnded c end
    → HasEnded finished end
ended-HasEnded c end at h = rw at at h

sending-HasEnded :
    (m : Response) (c : Caller) (end : Option (Result (Unit {0})))
    → c ≡ sending m
    → HasEnded c end
    → end ≡ none
sending-HasEnded m c end at h = rw at at h

-- What Send's answer leaves.
answered-Sound :
    (answer : Result (Unit {0})) (m : Response) (j : Joint)
    → Sound j
    → j.caller ≡ sending m
    → Sound (record j {
      caller = serving;
      stream = serve answer m j.stream.incoming j.stream;
      send_answer = answer;
    })
answered-Sound answer m j h at = record {
  caused =
      serve-IsCaused answer m j.stream.incoming j.stream j.context_done j.server_quit
        (sending-HasEnded m j.caller j.stream.end at h.over);
  over = tt;
}

step-Sound : (a : Actor) (j k : Joint) → Sound j → Step a j k → Sound k
step-Sound a j k h (arrives m j' at on) = record { caused = h.caused; over = h.over }
step-Sound a j k h (handed m j' at room) = record { caused = h.caused; over = h.over }
step-Sound a j k h (dropped m j' at done) = record { caused = h.caused; over = h.over }
step-Sound a j k h (takes m rest j' at running waits) = record { caused = h.caused; over = running }
step-Sound a j k h (sent answer m j' at) = answered-Sound answer m j h at
step-Sound a j k h (cut_off e m j' at done) = answered-Sound (err e) m j h at
step-Sound a j k h (client_done j' at running done) = record { caused = inl done; over = rw at tt }
step-Sound a j k h (server_done j' at running done) = record {
  caused = inr (inl done);
  over = rw at tt;
}
step-Sound a j k h (deferring r j' at done) = record { caused = h.caused; over = rw done tt }
step-Sound a j k h (deregistered j' at free) = record {
  caused = h.caused;
  over = ended-HasEnded j.caller j.stream.end at h.over;
}
step-Sound a j k h (abandoned j' at done) = record {
  caused = h.caused;
  over = ended-HasEnded j.caller j.stream.end at h.over;
}
step-Sound a j k h (returned j' at before) = record {
  caused = IsCaused-context j.stream.end j.send_answer j.context_done j.server_quit h.caused;
  over = h.over;
}
step-Sound a j k h (quits j' at done) = record { caused = h.caused; over = h.over }
step-Sound a j k h (lnd_ends j' at) = record { caused = h.caused; over = h.over }
step-Sound a j k h (cancels j') = record {
  caused = IsCaused-context j.stream.end j.send_answer j.context_done j.server_quit h.caused;
  over = h.over;
}
step-Sound a j k h (server_stops j') = record {
  caused = IsCaused-server j.stream.end j.send_answer j.context_done j.server_quit h.caused;
  over = h.over;
}
step-Sound a j k h (messenger_stops j' first) = record { caused = h.caused; over = h.over }

pub Reached-Sound : (j : Joint) → Reached j → Sound j
Reached-Sound j begun = record { caused = tt; over = tt }
Reached-Sound j (later a i k reached step) = step-Sound a i j (Reached-Sound i reached) step
