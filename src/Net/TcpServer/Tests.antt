-- ===== src/Net/TcpServer/Tests.antt =====
-- The server at a concrete input: three accepts, the second of which fails.
use network_core.Common.{◌≡◌, true, [], ◌∷◌}
use network_core.Net.TcpServer.{TcpServer, run_accepts, started, accepted_ids, run_accepts-started}

abbrev serving : TcpServer
serving = record {
  pool = record {
    main_ios = 0;
    ios_ptrs = 1 ∷ (2 ∷ []);
    works = 0 ∷ (1 ∷ (2 ∷ []));
    cur_ios_index = 1;
  };
  has_router = true;
  cur_conn_id = 1;
}

run_accepts-started_example : started (run_accepts (0 ∷ (24 ∷ (0 ∷ []))) serving) ≡ 1 ∷ (3 ∷ [])
unfolding accepted_ids
run_accepts-started_example = run_accepts-started (0 ∷ (24 ∷ (0 ∷ []))) serving
