-- ===== src/Forward/Tests.antt =====
-- Concrete streams.
use linkspan.Base.{none, some, concat, ◌≡◌, refl, true, [], ◌∷◌}
use linkspan.Go.Strconv.{atoi}
use linkspan.Tasks as Tasks
use linkspan.Tasks.{Task, World, empty_world, running, registered}
use linkspan.Forward.{
  stream, joined, refused, run_link, holding, stopped, Piping, reads_client, writes_server,
  stops_upward, piping, Steps, still, stepped,
}
use linkspan.Forward.Delivering.{IsDelivered, Steps-IsDelivered}
use linkspan.Forward.Reaching.{StreamsAs, stream-Serves}

abbrev listening : World
listening = record empty_world {
  heap = λ h. record (Tasks.new "jupyter" Tasks.spawn) {
    id = "j-4021";
    state = running;
    addr = "127.0.0.1:4021";
  };
  next = 1;
  registry = ("j-4021", 0) ∷ [];
}

stream-Serves_example :
    StreamsAs (atoi "4021") true true listening (stream "4021" true true listening)
stream-Serves_example = stream-Serves "4021" true true listening

-- The client's message has arrived, and the main loop has returned.
abbrev half_piped : Piping
half_piped = record (piping ("GET" ∷ []) ("200" ∷ [])) {
  client_sends = [];
  server_got = "GET" ∷ [];
  upward = stopped;
}

three_steps : Steps (piping ("GET" ∷ []) ("200" ∷ [])) 3 half_piped
three_steps =
    stepped 2 _ half_piped
      (stepped 1 _ _
        (stepped 0 _ _ still (reads_client (piping ("GET" ∷ []) ("200" ∷ [])) "GET" [] refl refl))
        (writes_server
          (record (piping ("GET" ∷ []) ("200" ∷ [])) { client_sends = []; upward = holding "GET" })
          "GET" refl))
      (stops_upward
        (record (piping ("GET" ∷ []) ("200" ∷ [])) { client_sends = []; server_got = "GET" ∷ [] })
        refl)

Steps-IsDelivered_example : IsDelivered (concat ("GET" ∷ [])) (concat ("200" ∷ [])) half_piped
Steps-IsDelivered_example = Steps-IsDelivered ("GET" ∷ []) ("200" ∷ []) 3 half_piped three_steps

-- Of two streams, the second asks for a port that no task serves.
run_link-streams :
    run_link none
      (record { port = some (15, 181); connects = true; world = listening }
        ∷ record { port = some (0, 22); connects = true; world = listening }
        ∷ [])
      "EOF"
    ≡ (joined 4021 ∷ refused ∷ [], "EOF")
unfolding run_link atoi linkspan.Go.HostPort.split_host_port
run_link-streams = refl
