-- ===== src/Mime/Table/Second.antt =====
-- mime.c: the second part of the table `MIME_LIST`.
use sillyweb.Base.{List, [], ◌∷◌}
use sillyweb.Mime.Entry.{MimeEntry}

unfoldable pub mime_list_second : List MimeEntry
mime_list_second =
    record { extension = "fif"; mimetype = "image/fif" }
    ∷ record { extension = "fli"; mimetype = "video/fli" }
    ∷ record { extension = "fli"; mimetype = "video/x-fli" }
    ∷ record { extension = "flo"; mimetype = "image/florian" }
    ∷ record { extension = "flx"; mimetype = "text/vnd.fmi.flexstor" }
    ∷ record { extension = "fmf"; mimetype = "video/x-atomic3d-feature" }
    ∷ record { extension = "for"; mimetype = "text/plain" }
    ∷ record { extension = "for"; mimetype = "text/x-fortran" }
    ∷ record { extension = "fpx"; mimetype = "image/vnd.fpx" }
    ∷ record { extension = "fpx"; mimetype = "image/vnd.net-fpx" }
    ∷ record { extension = "frl"; mimetype = "application/freeloader" }
    ∷ record { extension = "funk"; mimetype = "audio/make" }
    ∷ record { extension = "g"; mimetype = "text/plain" }
    ∷ record { extension = "g3"; mimetype = "image/g3fax" }
    ∷ record { extension = "gif"; mimetype = "image/gif" }
    ∷ record { extension = "gl"; mimetype = "video/gl" }
    ∷ record { extension = "gl"; mimetype = "video/x-gl" }
    ∷ record { extension = "gsd"; mimetype = "audio/x-gsm" }
    ∷ record { extension = "gsm"; mimetype = "audio/x-gsm" }
    ∷ record { extension = "gsp"; mimetype = "application/x-gsp" }
    ∷ record { extension = "gss"; mimetype = "application/x-gss" }
    ∷ record { extension = "gtar"; mimetype = "application/x-gtar" }
    ∷ record { extension = "gz"; mimetype = "application/x-compressed" }
    ∷ record { extension = "gz"; mimetype = "application/x-gzip" }
    ∷ record { extension = "gzip"; mimetype = "application/x-gzip" }
    ∷ record { extension = "h"; mimetype = "text/plain" }
    ∷ record { extension = "h"; mimetype = "text/x-h" }
    ∷ record { extension = "hdf"; mimetype = "application/x-hdf" }
    ∷ record { extension = "help"; mimetype = "application/x-helpfile" }
    ∷ record { extension = "hgl"; mimetype = "application/vnd.hp-hpgl" }
    ∷ record { extension = "hh"; mimetype = "text/plain" }
    ∷ record { extension = "hh"; mimetype = "text/x-h" }
    ∷ record { extension = "hlb"; mimetype = "text/x-script" }
    ∷ record { extension = "hlp"; mimetype = "application/hlp" }
    ∷ record { extension = "hlp"; mimetype = "application/x-helpfile" }
    ∷ record { extension = "hlp"; mimetype = "application/x-winhelp" }
    ∷ record { extension = "hpg"; mimetype = "application/vnd.hp-hpgl" }
    ∷ record { extension = "hpgl"; mimetype = "application/vnd.hp-hpgl" }
    ∷ record { extension = "hqx"; mimetype = "application/binhex" }
    ∷ record { extension = "hqx"; mimetype = "application/binhex4" }
    ∷ record { extension = "hqx"; mimetype = "application/mac-binhex" }
    ∷ record { extension = "hqx"; mimetype = "application/mac-binhex40" }
    ∷ record { extension = "hqx"; mimetype = "application/x-binhex40" }
    ∷ record { extension = "hqx"; mimetype = "application/x-mac-binhex40" }
    ∷ record { extension = "hta"; mimetype = "application/hta" }
    ∷ record { extension = "htc"; mimetype = "text/x-component" }
    ∷ record { extension = "htm"; mimetype = "text/html" }
    ∷ record { extension = "html"; mimetype = "text/html" }
    ∷ record { extension = "htmls"; mimetype = "text/html" }
    ∷ record { extension = "htt"; mimetype = "text/webviewhtml" }
    ∷ record { extension = "htx"; mimetype = "text/html" }
    ∷ record { extension = "ice"; mimetype = "x-conference/x-cooltalk" }
    ∷ record { extension = "ico"; mimetype = "image/x-icon" }
    ∷ record { extension = "idc"; mimetype = "text/plain" }
    ∷ record { extension = "ief"; mimetype = "image/ief" }
    ∷ record { extension = "iefs"; mimetype = "image/ief" }
    ∷ record { extension = "iges"; mimetype = "application/iges" }
    ∷ record { extension = "iges"; mimetype = "model/iges" }
    ∷ record { extension = "igs"; mimetype = "application/iges" }
    ∷ record { extension = "igs"; mimetype = "model/iges" }
    ∷ record { extension = "ima"; mimetype = "application/x-ima" }
    ∷ record { extension = "imap"; mimetype = "application/x-httpd-imap" }
    ∷ record { extension = "inf"; mimetype = "application/inf" }
    ∷ record { extension = "ins"; mimetype = "application/x-internett-signup" }
    ∷ record { extension = "ip"; mimetype = "application/x-ip2" }
    ∷ record { extension = "isu"; mimetype = "video/x-isvideo" }
    ∷ record { extension = "it"; mimetype = "audio/it" }
    ∷ record { extension = "iv"; mimetype = "application/x-inventor" }
    ∷ record { extension = "ivr"; mimetype = "i-world/i-vrml" }
    ∷ record { extension = "ivy"; mimetype = "application/x-livescreen" }
    ∷ record { extension = "jam"; mimetype = "audio/x-jam" }
    ∷ record { extension = "jav"; mimetype = "text/plain" }
    ∷ record { extension = "jav"; mimetype = "text/x-java-source" }
    ∷ record { extension = "java"; mimetype = "text/plain" }
    ∷ record { extension = "java"; mimetype = "text/x-java-source" }
    ∷ record { extension = "jcm"; mimetype = "application/x-java-commerce" }
    ∷ record { extension = "jfif"; mimetype = "image/jpeg" }
    ∷ record { extension = "jfif"; mimetype = "image/pjpeg" }
    ∷ record { extension = "jfif-tbnl"; mimetype = "image/jpeg" }
    ∷ record { extension = "jpe"; mimetype = "image/jpeg" }
    ∷ record { extension = "jpe"; mimetype = "image/pjpeg" }
    ∷ record { extension = "jpeg"; mimetype = "image/jpeg" }
    ∷ record { extension = "jpeg"; mimetype = "image/pjpeg" }
    ∷ record { extension = "jpg"; mimetype = "image/jpeg" }
    ∷ record { extension = "jpg"; mimetype = "image/pjpeg" }
    ∷ record { extension = "jps"; mimetype = "image/x-jps" }
    ∷ record { extension = "js"; mimetype = "application/x-javascript" }
    ∷ record { extension = "js"; mimetype = "application/javascript" }
    ∷ record { extension = "js"; mimetype = "application/ecmascript" }
    ∷ record { extension = "js"; mimetype = "text/javascript" }
    ∷ record { extension = "js"; mimetype = "text/ecmascript" }
    ∷ record { extension = "jut"; mimetype = "image/jutvision" }
    ∷ record { extension = "kar"; mimetype = "audio/midi" }
    ∷ record { extension = "kar"; mimetype = "music/x-karaoke" }
    ∷ record { extension = "ksh"; mimetype = "application/x-ksh" }
    ∷ record { extension = "ksh"; mimetype = "text/x-script.ksh" }
    ∷ record { extension = "la"; mimetype = "audio/nspaudio" }
    ∷ record { extension = "la"; mimetype = "audio/x-nspaudio" }
    ∷ record { extension = "lam"; mimetype = "audio/x-liveaudio" }
    ∷ record { extension = "latex"; mimetype = "application/x-latex" }
    ∷ record { extension = "lha"; mimetype = "application/lha" }
    ∷ record { extension = "lha"; mimetype = "application/octet-stream" }
    ∷ record { extension = "lha"; mimetype = "application/x-lha" }
    ∷ record { extension = "lhx"; mimetype = "application/octet-stream" }
    ∷ record { extension = "list"; mimetype = "text/plain" }
    ∷ record { extension = "lma"; mimetype = "audio/nspaudio" }
    ∷ record { extension = "lma"; mimetype = "audio/x-nspaudio" }
    ∷ record { extension = "log"; mimetype = "text/plain" }
    ∷ record { extension = "lsp"; mimetype = "application/x-lisp" }
    ∷ record { extension = "lsp"; mimetype = "text/x-script.lisp" }
    ∷ record { extension = "lst"; mimetype = "text/plain" }
    ∷ record { extension = "lsx"; mimetype = "text/x-la-asf" }
    ∷ record { extension = "ltx"; mimetype = "application/x-latex" }
    ∷ record { extension = "lzh"; mimetype = "application/octet-stream" }
    ∷ record { extension = "lzh"; mimetype = "application/x-lzh" }
    ∷ record { extension = "lzx"; mimetype = "application/lzx" }
    ∷ record { extension = "lzx"; mimetype = "application/octet-stream" }
    ∷ record { extension = "lzx"; mimetype = "application/x-lzx" }
    ∷ record { extension = "m"; mimetype = "text/plain" }
    ∷ record { extension = "m"; mimetype = "text/x-m" }
    ∷ record { extension = "m1v"; mimetype = "video/mpeg" }
    ∷ record { extension = "m2a"; mimetype = "audio/mpeg" }
    ∷ record { extension = "m2v"; mimetype = "video/mpeg" }
    ∷ record { extension = "m3u"; mimetype = "audio/x-mpequrl" }
    ∷ record { extension = "man"; mimetype = "application/x-troff-man" }
    ∷ record { extension = "map"; mimetype = "application/x-navimap" }
    ∷ record { extension = "mar"; mimetype = "text/plain" }
    ∷ record { extension = "mbd"; mimetype = "application/mbedlet" }
    ∷ record { extension = "mc$"; mimetype = "application/x-magic-cap-package-1.0" }
    ∷ record { extension = "mcd"; mimetype = "application/mcad" }
    ∷ []
