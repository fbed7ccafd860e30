-- ===== src/Mime/Table/Third.antt =====
-- mime.c: the third part of the table `MIME_LIST`.
use sillyweb.Base.{List, [], ◌∷◌}
use sillyweb.Mime.Entry.{MimeEntry}

unfoldable pub mime_list_third : List MimeEntry
mime_list_third =
    record { extension = "mcd"; mimetype = "application/x-mathcad" }
    ∷ record { extension = "mcf"; mimetype = "image/vasa" }
    ∷ record { extension = "mcf"; mimetype = "text/mcf" }
    ∷ record { extension = "mcp"; mimetype = "application/netmc" }
    ∷ record { extension = "me"; mimetype = "application/x-troff-me" }
    ∷ record { extension = "mht"; mimetype = "message/rfc822" }
    ∷ record { extension = "mhtml"; mimetype = "message/rfc822" }
    ∷ record { extension = "mid"; mimetype = "application/x-midi" }
    ∷ record { extension = "mid"; mimetype = "audio/midi" }
    ∷ record { extension = "mid"; mimetype = "audio/x-mid" }
    ∷ record { extension = "mid"; mimetype = "audio/x-midi" }
    ∷ record { extension = "mid"; mimetype = "music/crescendo" }
    ∷ record { extension = "mid"; mimetype = "x-music/x-midi" }
    ∷ record { extension = "midi"; mimetype = "application/x-midi" }
    ∷ record { extension = "midi"; mimetype = "audio/midi" }
    ∷ record { extension = "midi"; mimetype = "audio/x-mid" }
    ∷ record { extension = "midi"; mimetype = "audio/x-midi" }
    ∷ record { extension = "midi"; mimetype = "music/crescendo" }
    ∷ record { extension = "midi"; mimetype = "x-music/x-midi" }
    ∷ record { extension = "mif"; mimetype = "application/x-frame" }
    ∷ record { extension = "mif"; mimetype = "application/x-mif" }
    ∷ record { extension = "mime"; mimetype = "message/rfc822" }
    ∷ record { extension = "mime"; mimetype = "www/mime" }
    ∷ record { extension = "mjf"; mimetype = "audio/x-vnd.audioexplosion.mjuicemediafile" }
    ∷ record { extension = "mjpg"; mimetype = "video/x-motion-jpeg" }
    ∷ record { extension = "mm"; mimetype = "application/base64" }
    ∷ record { extension = "mm"; mimetype = "application/x-meme" }
    ∷ record { extension = "mme"; mimetype = "application/base64" }
    ∷ record { extension = "mod"; mimetype = "audio/mod" }
    ∷ record { extension = "mod"; mimetype = "audio/x-mod" }
    ∷ record { extension = "moov"; mimetype = "video/quicktime" }
    ∷ record { extension = "mov"; mimetype = "video/quicktime" }
    ∷ record { extension = "movie"; mimetype = "video/x-sgi-movie" }
    ∷ record { extension = "mp2"; mimetype = "audio/mpeg" }
    ∷ record { extension = "mp2"; mimetype = "audio/x-mpeg" }
    ∷ record { extension = "mp2"; mimetype = "video/mpeg" }
    ∷ record { extension = "mp2"; mimetype = "video/x-mpeg" }
    ∷ record { extension = "mp2"; mimetype = "video/x-mpeq2a" }
    ∷ record { extension = "mp3"; mimetype = "audio/mpeg3" }
    ∷ record { extension = "mp3"; mimetype = "audio/x-mpeg-3" }
    ∷ record { extension = "mp3"; mimetype = "video/mpeg" }
    ∷ record { extension = "mp3"; mimetype = "video/x-mpeg" }
    ∷ record { extension = "mpa"; mimetype = "audio/mpeg" }
    ∷ record { extension = "mpa"; mimetype = "video/mpeg" }
    ∷ record { extension = "mpc"; mimetype = "application/x-project" }
    ∷ record { extension = "mpe"; mimetype = "video/mpeg" }
    ∷ record { extension = "mpeg"; mimetype = "video/mpeg" }
    ∷ record { extension = "mpg"; mimetype = "audio/mpeg" }
    ∷ record { extension = "mpg"; mimetype = "video/mpeg" }
    ∷ record { extension = "mpga"; mimetype = "audio/mpeg" }
    ∷ record { extension = "mpp"; mimetype = "application/vnd.ms-project" }
    ∷ record { extension = "mpt"; mimetype = "application/x-project" }
    ∷ record { extension = "mpv"; mimetype = "application/x-project" }
    ∷ record { extension = "mpx"; mimetype = "application/x-project" }
    ∷ record { extension = "mrc"; mimetype = "application/marc" }
    ∷ record { extension = "ms"; mimetype = "application/x-troff-ms" }
    ∷ record { extension = "mv"; mimetype = "video/x-sgi-movie" }
    ∷ record { extension = "my"; mimetype = "audio/make" }
    ∷ record { extension = "mzz"; mimetype = "application/x-vnd.audioexplosion.mzz" }
    ∷ record { extension = "nap"; mimetype = "image/naplps" }
    ∷ record { extension = "naplps"; mimetype = "image/naplps" }
    ∷ record { extension = "nc"; mimetype = "application/x-netcdf" }
    ∷ record { extension = "ncm"; mimetype = "application/vnd.nokia.configuration-message" }
    ∷ record { extension = "nif"; mimetype = "image/x-niff" }
    ∷ record { extension = "niff"; mimetype = "image/x-niff" }
    ∷ record { extension = "nix"; mimetype = "application/x-mix-transfer" }
    ∷ record { extension = "nsc"; mimetype = "application/x-conference" }
    ∷ record { extension = "nvd"; mimetype = "application/x-navidoc" }
    ∷ record { extension = "o"; mimetype = "application/octet-stream" }
    ∷ record { extension = "oda"; mimetype = "application/oda" }
    ∷ record { extension = "omc"; mimetype = "application/x-omc" }
    ∷ record { extension = "omcd"; mimetype = "application/x-omcdatamaker" }
    ∷ record { extension = "omcr"; mimetype = "application/x-omcregerator" }
    ∷ record { extension = "p"; mimetype = "text/x-pascal" }
    ∷ record { extension = "p10"; mimetype = "application/pkcs10" }
    ∷ record { extension = "p10"; mimetype = "application/x-pkcs10" }
    ∷ record { extension = "p12"; mimetype = "application/pkcs-12" }
    ∷ record { extension = "p12"; mimetype = "application/x-pkcs12" }
    ∷ record { extension = "p7a"; mimetype = "application/x-pkcs7-signature" }
    ∷ record { extension = "p7c"; mimetype = "application/pkcs7-mime" }
    ∷ record { extension = "p7c"; mimetype = "application/x-pkcs7-mime" }
    ∷ record { extension = "p7m"; mimetype = "application/pkcs7-mime" }
    ∷ record { extension = "p7m"; mimetype = "application/x-pkcs7-mime" }
    ∷ record { extension = "p7r"; mimetype = "application/x-pkcs7-certreqresp" }
    ∷ record { extension = "p7s"; mimetype = "application/pkcs7-signature" }
    ∷ record { extension = "part"; mimetype = "application/pro_eng" }
    ∷ record { extension = "pas"; mimetype = "text/pascal" }
    ∷ record { extension = "pbm"; mimetype = "image/x-portable-bitmap" }
    ∷ record { extension = "pcl"; mimetype = "application/vnd.hp-pcl" }
    ∷ record { extension = "pcl"; mimetype = "application/x-pcl" }
    ∷ record { extension = "pct"; mimetype = "image/x-pict" }
    ∷ record { extension = "pcx"; mimetype = "image/x-pcx" }
    ∷ record { extension = "pdb"; mimetype = "chemical/x-pdb" }
    ∷ record { extension = "pdf"; mimetype = "application/pdf" }
    ∷ record { extension = "pfunk"; mimetype = "audio/make" }
    ∷ record { extension = "pfunk"; mimetype = "audio/make.my.funk" }
    ∷ record { extension = "pgm"; mimetype = "image/x-portable-graymap" }
    ∷ record { extension = "pgm"; mimetype = "image/x-portable-greymap" }
    ∷ record { extension = "pic"; mimetype = "image/pict" }
    ∷ record { extension = "pict"; mimetype = "image/pict" }
    ∷ record { extension = "pkg"; mimetype = "application/x-newton-compatible-pkg" }
    ∷ record { extension = "pko"; mimetype = "application/vnd.ms-pki.pko" }
    ∷ record { extension = "pl"; mimetype = "text/plain" }
    ∷ record { extension = "pl"; mimetype = "text/x-script.perl" }
    ∷ record { extension = "plx"; mimetype = "application/x-pixclscript" }
    ∷ record { extension = "pm"; mimetype = "image/x-xpixmap" }
    ∷ record { extension = "pm"; mimetype = "text/x-script.perl-module" }
    ∷ record { extension = "pm4"; mimetype = "application/x-pagemaker" }
    ∷ record { extension = "pm5"; mimetype = "application/x-pagemaker" }
    ∷ record { extension = "png"; mimetype = "image/png" }
    ∷ record { extension = "pnm"; mimetype = "application/x-portable-anymap" }
    ∷ record { extension = "pnm"; mimetype = "image/x-portable-anymap" }
    ∷ record { extension = "pot"; mimetype = "application/mspowerpoint" }
    ∷ record { extension = "pot"; mimetype = "application/vnd.ms-powerpoint" }
    ∷ record { extension = "pov"; mimetype = "model/x-pov" }
    ∷ record { extension = "ppa"; mimetype = "application/vnd.ms-powerpoint" }
    ∷ record { extension = "ppm"; mimetype = "image/x-portable-pixmap" }
    ∷ record { extension = "pps"; mimetype = "application/mspowerpoint" }
    ∷ record { extension = "pps"; mimetype = "application/vnd.ms-powerpoint" }
    ∷ record { extension = "ppt"; mimetype = "application/mspowerpoint" }
    ∷ record { extension = "ppt"; mimetype = "application/powerpoint" }
    ∷ record { extension = "ppt"; mimetype = "application/vnd.ms-powerpoint" }
    ∷ record { extension = "ppt"; mimetype = "application/x-mspowerpoint" }
    ∷ record { extension = "ppz"; mimetype = "application/mspowerpoint" }
    ∷ record { extension = "pre"; mimetype = "application/x-freelance" }
    ∷ record { extension = "prt"; mimetype = "application/pro_eng" }
    ∷ record { extension = "ps"; mimetype = "application/postscript" }
    ∷ record { extension = "psd"; mimetype = "application/octet-stream" }
    ∷ record { extension = "pvu"; mimetype = "paleovu/x-pv" }
    ∷ record { extension = "pwz"; mimetype = "application/vnd.ms-powerpoint" }
    ∷ []
