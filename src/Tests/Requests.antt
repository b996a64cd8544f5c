-- ===== src/Tests/Requests.antt =====
-- The one-shot HTTP request on a client that answers with two pieces.
use obs_foxfire.Twitch.Api.{answered, Request}
use obs_foxfire.Net.Http.{
  Client, http_request, on_body, take_pieces, perform, append_headers, finish_request, with_handle,
}
use obs_foxfire.Net.Http.Whole.{Whole, http_request-Whole}
use obs_foxfire.Prelude.{codes, ◌≡◌, refl, true, none, some, [], ◌∷◌}
use obs_foxfire.Prelude.Int.{pos}

abbrev client : Client
client = record {
  World = Unit {0};
  Handle = Unit {0};
  easy_init = λ w. (some tt, tt);
  append_header = λ w h. (true, tt);
  free_headers = λ w. tt;
  transfer = λ w h setup. (codes "{\"a\":" ∷ codes "1}" ∷ [], none, tt);
  write_error = codes "write";
  alloc = λ w n. (true, tt);
  response_code = λ w h. pos 200;
  cleanup = λ w h. tt;
}

abbrev request : Request
request = record {
  method = codes "GET";
  url = codes "https://x";
  headers = codes "A: b" ∷ [];
  body = none;
}

answers : (http_request client tt request).0 ≡ answered (pos 200) (some (codes "{\"a\":1}"))
unfolding http_request with_handle append_headers perform take_pieces on_body finish_request
answers = refl

http_request-Whole_example : Whole client request (some (codes "{\"a\":1}"))
http_request-Whole_example =
    http_request-Whole client tt request (pos 200) (some (codes "{\"a\":1}")) answers
