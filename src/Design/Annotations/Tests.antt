-- ===== src/Design/Annotations/Tests.antt =====
-- Reading concrete tags and comments.
use eddwise.Base.{Text-discrete, codes, [], ◌≡◌, refl, ℕ_discrete}
use eddwise.Design.{any, server_to_client, client_to_server, Tags}
use eddwise.Design.Annotations.{process_tags, get_comments}

abbrev server_p : Tags
server_p = record { alias = codes "p="; direction = server_to_client }

no_marks_runs : process_tags (codes "!server") ≡ record { alias = []; direction = any }
unfolding process_tags ℕ_discrete
no_marks_runs = refl

last_wins_runs :
    process_tags (codes "!!server,alias=a,client,alias")
    ≡ record { alias = []; direction = client_to_server }
unfolding process_tags Text-discrete ℕ_discrete
last_wins_runs = refl

comments_run : get_comments (codes "# one #") [] (codes "## two") ≡ codes "one two"
unfolding get_comments ℕ_discrete
comments_run = refl
