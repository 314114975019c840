-- ===== src/Errors/Tests.antt =====
-- Answers of the server, in the categories of src/lib/errors.ts.
use miradex_client.Prelude.{◌≡◌, refl}
use miradex_client.Errors.{
  absent, of_error, error, network, unknown, classify_error, names_network_code,
}
use miradex_client.Errors.Text.{has_word, lower}

refused_is_network : classify_error (error "x" (of_error "connect ECONNREFUSED 1.2.3.4")) ≡ network
unfolding classify_error names_network_code has_word lower
refused_is_network = refl

word_boundary : classify_error (error "unterminated" absent) ≡ unknown
unfolding classify_error names_network_code has_word lower
word_boundary = refl
